-- ===== src/Text/Prefix.antt =====
-- `strncmp` over a whole literal tests whether a text begins with it.
use edaf55_project.Base.{
  ℕ, suc, ◌≡◌, refl, ◌≢◌, List, [], ◌∷◌, ◌++◌, length, arith, false, true, ◌==◌, ==_iff, Bool-cases,
  inl, inr, ◌∙◌, ap₂,
}
use edaf55_project.Text.{strncmp}

-- `s` begins with `p`.
abbrev pub Begins : List ℕ → List ℕ → Type 0
Begins p s = (rest : List ℕ) × (s ≡ p ++ rest)

-- No byte is the terminator.
abbrev pub AllNonzero : List ℕ → Type 0
AllNonzero [] = Unit
AllNonzero (c ∷ s) = (c ≢ 0) × AllNonzero s

strncmp_step :
    (c : ℕ) (p s : List ℕ)
    → c ≢ 0
    → strncmp (c ∷ s) (c ∷ p) (suc (length p)) ≡ strncmp s p (length p)
unfolding strncmp
strncmp_step c p s h = ground arith

strncmp_differ : (c d : ℕ) (p s : List ℕ) (n : ℕ) → c ≢ d → strncmp (d ∷ s) (c ∷ p) (suc n) ≡ true
unfolding strncmp
strncmp_differ c d p s n h = ground arith

pub strncmp_begins : (p s : List ℕ) → AllNonzero p → strncmp (p ++ s) p (length p) ≡ false
strncmp_begins [] s h = unfold strncmp in refl
strncmp_begins (c ∷ p) s (hc, h) = strncmp_step c p (p ++ s) hc ∙ strncmp_begins p s h

pub Begins-strncmp : (p s : List ℕ) → AllNonzero p → strncmp s p (length p) ≡ false → Begins p s
unfolding strncmp
Begins-strncmp [] s h e = (s, refl)
Begins-strncmp (c ∷ p) [] h e = absurd (ground arith)
Begins-strncmp (c ∷ p) (d ∷ s) (hc, h) e = elim (Bool-cases (d == c)) [
  | inl same ↦
      let eq = (==_iff d c).0 same in
      let (rest, e') = Begins-strncmp p s h (ground arith) in (rest, ap₂ (λ x t. x ∷ t) eq e')
  | inr differ ↦ absurd (ground arith)
]
