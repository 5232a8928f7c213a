-- ===== src/Text/Decimal.antt =====
-- `atol` reads back what `%ld` has printed.
use native.Mathlib.Nat.{pow-suc}
use edaf55_project.Base.{
  ℕ, zero, suc, ◌+◌, ◌-◌, ◌*◌, ◌/◌, ◌%◌, ◌^◌, ◌≤◌, ◌<◌, ◌≡◌, refl, ◌≢◌, ◌∙◌, ap, List, [], ◌∷◌,
  ◌++◌, length-append, some, ℤ, pos, negsuc, arith, false, true,
}
use edaf55_project.Text.{
  is_digit, skip_spaces, scan_digits, long_max, in_long, long_of, atol, digits, format_long,
}

-- The number that digits spell behind `n`.
abbrev pub value : ℕ → List ℕ → ℕ
value n [] = n
value n (c ∷ s) = value (n * 10 + (c - b'0')) s

pub value-append : (n : ℕ) (s t : List ℕ) → value n (s ++ t) ≡ value (value n s) t
value-append n [] t = refl
value-append n (c ∷ s) t = value-append (n * 10 + (c - b'0')) s t

abbrev pub AllDigits : List ℕ → Type 0
AllDigits [] = Unit
AllDigits (c ∷ s) = (is_digit c ≡ true) × AllDigits s

pub AllDigits-append : (s t : List ℕ) → AllDigits s → AllDigits t → AllDigits (s ++ t)
AllDigits-append [] t hs ht = ht
AllDigits-append (c ∷ s) t (hc, hs) ht = (hc, AllDigits-append s t hs ht)

pub digits-AllDigits : (fuel n : ℕ) → AllDigits (digits fuel n)
unfolding digits
digits-AllDigits zero n = tt
digits-AllDigits (suc fuel) n = ground (
  arith,
  AllDigits-append (digits fuel (n / 10)) ((b'0' + n % 10) ∷ []),
  digits-AllDigits fuel (n / 10),
)

pub value-digits : (fuel n : ℕ) → n < 10 ^ fuel → value 0 (digits fuel n) ≡ n
unfolding digits
value-digits zero n h = omega arith
value-digits (suc fuel) n h = ground (
  arith,
  pow-suc 10 fuel,
  value-append 0 (digits fuel (n / 10)) ((b'0' + n % 10) ∷ []),
  value-digits fuel (n / 10),
)

pub digits-ne-nil : (fuel n : ℕ) → digits (suc fuel) n ≢ []
unfolding digits
digits-ne-nil fuel n = ground (arith, length-append (digits fuel (n / 10)) ((b'0' + n % 10) ∷ []))

-- The scan takes all the digits and stops at the first byte that is none.
scan_digits-value :
    (n : ℕ) (s : List ℕ) (c : ℕ) (t : List ℕ)
    → AllDigits s
    → is_digit c ≡ false
    → scan_digits n (s ++ (c ∷ t)) ≡ some (value n s)
unfolding scan_digits
scan_digits-value n [] c t hs hc = rw hc
scan_digits-value n (d ∷ s) c t (hd, hs) hc =
    rw hd (scan_digits-value (n * 10 + (d - b'0')) s c t hs hc)

-- A text that begins with a digit has no space and no sign in front.
atol_digit :
    (d : ℕ) (s : List ℕ) → is_digit d ≡ true → atol (d ∷ s) ≡ long_of false (scan_digits 0 (d ∷ s))
unfolding atol skip_spaces
atol_digit d s h = ground arith

atol_minus : (s : List ℕ) → atol (b'-' ∷ s) ≡ long_of true (scan_digits 0 s)
unfolding atol skip_spaces
atol_minus s = refl

atol_digits :
    (s : List ℕ) (c : ℕ) (t : List ℕ)
    → s ≢ []
    → AllDigits s
    → is_digit c ≡ false
    → atol (s ++ (c ∷ t)) ≡ in_long false (value 0 s)
atol_digits [] c t ne hs hc = absurd (ne refl)
atol_digits (d ∷ s) c t ne hs hc =
    atol_digit d (s ++ (c ∷ t)) hs.0 ∙ ap (long_of false) (scan_digits-value 0 (d ∷ s) c t hs hc)

-- The integers that a `long` holds.
abbrev pub IsLong : ℤ → Type 0
IsLong (pos n) = n ≤ long_max
IsLong (negsuc n) = n ≤ long_max

-- `atol` gives back the number that `%ld` printed, whatever stands behind the next byte, if that is
-- no digit.
pub atol-format_long :
    (z : ℤ) (c : ℕ) (t : List ℕ)
    → IsLong z
    → is_digit c ≡ false
    → atol (format_long z ++ (c ∷ t)) ≡ some z
unfolding format_long
atol-format_long (pos n) c t h hc =
    atol_digits (digits 20 n) c t (digits-ne-nil 19 n) (digits-AllDigits 20 n) hc
    ∙ rw (value-digits 20 n (omega arith)) (ground arith)
atol-format_long (negsuc n) c t h hc =
    atol_minus (digits 20 (suc n) ++ (c ∷ t))
    ∙ ap (long_of true)
        (scan_digits-value 0 (digits 20 (suc n)) c t (digits-AllDigits 20 (suc n)) hc)
    ∙ rw (value-digits 20 (suc n) (omega arith)) (ground arith)
