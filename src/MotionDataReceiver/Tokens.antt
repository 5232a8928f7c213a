-- ===== src/MotionDataReceiver/Tokens.antt =====
-- MotionPack.java's `getTimes`: numbers between colons, with bytes that are 0 at the end.
use edaf55_project.Base.{
  ℕ, ◌+◌, ◌-◌, ◌*◌, ◌≤◌, ◌≡◌, ◌≢◌, ◌∙◌, refl, ap, ap₂, sym, List, [], ◌∷◌, ◌++◌, none, some, true,
  false, ℤ, pos, arith, append-nil, if◌then◌else◌, le→leb, ◌==◌,
}
use edaf55_project.Memory.{◌>>=◌}
use edaf55_project.Text.{is_space, in_long, long_max}
use edaf55_project.Text.Decimal.{AllDigits, value}
use edaf55_project.MotionDataReceiver.{
  number_of, parse_int, magnitude, trim, trim_end, remove_spaces, push, pieces, nonempty, parse_all,
}
use edaf55_project.MotionDataReceiver.Reads.{trim-append}

-- All bytes are 0.
abbrev pub AllZero : List ℕ → Type 0
AllZero [] = Unit
AllZero (c ∷ s) = (c ≡ 0) × AllZero s

pub AllZero-append : (s t : List ℕ) → AllZero s → AllZero t → AllZero (s ++ t)
AllZero-append [] t hs ht = ht
AllZero-append (c ∷ s) t (hc, hs) ht = (hc, AllZero-append s t hs ht)

trim_end-zeros : (z : List ℕ) → AllZero z → trim_end z ≡ []
trim_end-zeros [] h = refl
trim_end-zeros (c ∷ z) (hc, h) = rw (hc, trim_end-zeros z h) refl

number_of-value : (n : ℕ) (s : List ℕ) → AllDigits s → number_of n s ≡ some (value n s)
unfolding number_of
number_of-value n [] h = refl
number_of-value n (c ∷ s) (hc, h) = rw hc (number_of-value (n * 10 + (c - b'0')) s h)

-- A number that an `int` holds is read as itself.
parse_int-value :
    (s : List ℕ)
    → s ≢ []
    → AllDigits s
    → value 0 s ≤ long_max
    → parse_int s ≡ some (pos (value 0 s))
unfolding parse_int
parse_int-value [] some_digit h fits = absurd (some_digit refl)
parse_int-value (c ∷ s) some_digit (hc, h) fits =
    let v = value 0 (c ∷ s) in
    let no_minus : (c == b'-') ≡ false = ground arith in
    let no_plus : (c == b'+') ≡ false = ground arith in
    let unsigned = magnitude false (c ∷ s) in
    ap (λ b. if b then magnitude true s else if c == b'+' then magnitude false s else unsigned)
      no_minus
    ∙ ap (λ b. if b then magnitude false s else unsigned) no_plus
    ∙ ap (λ o. o >>= in_long false) (number_of-value 0 (c ∷ s) (hc, h))
    ∙ ap (λ b. if b then some (pos v) else none) (le→leb v long_max fits)

-- A text without blanks, and the digits in front of it.
remove_spaces-digits : (s t : List ℕ) → AllDigits s → remove_spaces (s ++ t) ≡ s ++ remove_spaces t
remove_spaces-digits [] t h = refl
remove_spaces-digits (c ∷ s) t (hc, h) =
    let dark : is_space c ≡ false = ground arith in
    ap (λ b. if b then remove_spaces (s ++ t) else c ∷ remove_spaces (s ++ t)) dark
    ∙ ap (λ r. c ∷ r) (remove_spaces-digits s t h)

remove_spaces-zeros : (z : List ℕ) → AllZero z → remove_spaces z ≡ z
remove_spaces-zeros [] h = refl
remove_spaces-zeros (c ∷ z) (hc, h) =
    let dark : is_space c ≡ false = ap is_space hc in
    ap (λ b. if b then remove_spaces z else c ∷ remove_spaces z) dark
    ∙ ap (λ r. c ∷ r) (remove_spaces-zeros z h)

pieces-digits :
    (s t w : List ℕ) (ws : List (List ℕ))
    → AllDigits s
    → pieces t ≡ w ∷ ws
    → pieces (s ++ t) ≡ (s ++ w) ∷ ws
pieces-digits [] t w ws h e = e
pieces-digits (c ∷ s) t w ws (hc, h) e =
    let plain : (c == b':') ≡ false = ground arith in
    ap (λ b. if b then [] ∷ pieces (s ++ t) else push c (pieces (s ++ t))) plain
    ∙ ap (push c) (pieces-digits s t w ws h e)

pieces-zeros : (z : List ℕ) → AllZero z → pieces z ≡ z ∷ []
pieces-zeros [] h = refl
pieces-zeros (c ∷ z) (hc, h) =
    let plain : (c == b':') ≡ false = ap (λ k. k == b':') hc in
    ap (λ b. if b then [] ∷ pieces z else push c (pieces z)) plain ∙ ap (push c) (pieces-zeros z h)

nonempty-append :
    (s t : List ℕ) (ws : List (List ℕ)) → s ≢ [] → nonempty ((s ++ t) ∷ ws) ≡ (s ++ t) ∷ nonempty ws
nonempty-append [] t ws some_byte = absurd (some_byte refl)
nonempty-append (c ∷ s) t ws some_byte = refl

-- Two numbers with a colon between them and zeros behind.
pub pieces-two :
    (s t z : List ℕ)
    → s ≢ []
    → t ≢ []
    → AllDigits s
    → AllDigits t
    → AllZero z
    → nonempty (pieces (remove_spaces (s ++ (b':' ∷ t ++ z)))) ≡ s ∷ (t ++ z) ∷ []
pieces-two s t z hs ht ds dt dz =
    let dark : remove_spaces (s ++ (b':' ∷ t ++ z)) ≡ s ++ (b':' ∷ t ++ z) =
      remove_spaces-digits s (b':' ∷ t ++ z) ds
      ∙ ap (λ r. s ++ (b':' ∷ r))
          (remove_spaces-digits t z dt ∙ ap (λ r. t ++ r) (remove_spaces-zeros z dz)) in
    let cut : pieces (b':' ∷ t ++ z) ≡ [] ∷ (t ++ z) ∷ [] =
      ap (λ r. [] ∷ r) (pieces-digits t z z [] dt (pieces-zeros z dz)) in
    ap (λ r. nonempty (pieces r)) dark
    ∙ ap nonempty (pieces-digits s (b':' ∷ t ++ z) [] ((t ++ z) ∷ []) ds cut)
    ∙ nonempty-append s [] ((t ++ z) ∷ []) hs
    ∙ ap₂ (λ a r. a ∷ r) (append-nil s) (nonempty-append t z [] ht)

parse_all-cons :
    (w : List ℕ) (ws : List (List ℕ)) (a : ℤ) (zs : List ℤ)
    → parse_int (trim w) ≡ some a
    → parse_all ws ≡ some zs
    → parse_all (w ∷ ws) ≡ some (a ∷ zs)
parse_all-cons w ws a zs h hs = rw (h, hs) refl

pub parse_all-two :
    (s t z : List ℕ)
    → s ≢ []
    → t ≢ []
    → AllDigits s
    → AllDigits t
    → AllZero z
    → value 0 s ≤ long_max
    → value 0 t ≤ long_max
    → parse_all (s ∷ (t ++ z) ∷ []) ≡ some (pos (value 0 s) ∷ pos (value 0 t) ∷ [])
parse_all-two s t z hs ht ds dt dz fs ft =
    let one : trim s ≡ s = ap trim (sym (append-nil s)) ∙ trim-append s [] ds refl in
    let two : trim (t ++ z) ≡ t = trim-append t z dt (trim_end-zeros z dz) in
    parse_all-cons s ((t ++ z) ∷ []) (pos (value 0 s)) (pos (value 0 t) ∷ [])
      (ap parse_int one ∙ parse_int-value s hs ds fs)
      (parse_all-cons (t ++ z) [] (pos (value 0 t)) []
        (ap parse_int two ∙ parse_int-value t ht dt ft) refl)
