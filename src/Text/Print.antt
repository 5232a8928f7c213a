-- ===== src/Text/Print.antt =====
-- Texts without a terminator inside, and how long the printed numbers are.
use edaf55_project.Base.{
  ℕ, zero, suc, ◌+◌, ◌-◌, ◌/◌, ◌%◌, ◌≤◌, ◌<◌, ◌≡◌, refl, List, [], ◌∷◌, ◌++◌, length, length-append,
  take_all, ℤ, pos, negsuc, arith,
}
use edaf55_project.Text.{digits, format_unsigned, format_long, snprintf, strlen}
use edaf55_project.Text.Prefix.{AllNonzero}
use edaf55_project.Text.Decimal.{AllDigits, digits-AllDigits}

pub AllNonzero-append : (s t : List ℕ) → AllNonzero s → AllNonzero t → AllNonzero (s ++ t)
AllNonzero-append [] t hs ht = ht
AllNonzero-append (c ∷ s) t (hc, hs) ht = (hc, AllNonzero-append s t hs ht)

AllDigits-AllNonzero : (s : List ℕ) → AllDigits s → AllNonzero s
AllDigits-AllNonzero [] h = tt
AllDigits-AllNonzero (c ∷ s) (hc, h) = (ground arith, AllDigits-AllNonzero s h)

pub format_unsigned-AllNonzero : (n : ℕ) → AllNonzero (format_unsigned n)
unfolding format_unsigned
format_unsigned-AllNonzero n = AllDigits-AllNonzero (digits 20 n) (digits-AllDigits 20 n)

pub format_long-AllNonzero : (z : ℤ) → AllNonzero (format_long z)
unfolding format_long
format_long-AllNonzero (pos n) = AllDigits-AllNonzero (digits 20 n) (digits-AllDigits 20 n)
format_long-AllNonzero (negsuc n) =
    (omega arith, AllDigits-AllNonzero (digits 20 (suc n)) (digits-AllDigits 20 (suc n)))

length-digits-le : (fuel n : ℕ) → length (digits fuel n) ≤ fuel
unfolding digits
length-digits-le zero n = omega arith
length-digits-le (suc fuel) n = ground (
  arith,
  length-append (digits fuel (n / 10)) ((b'0' + n % 10) ∷ []),
  length-digits-le fuel (n / 10),
)

pub length-format_unsigned-le : (n : ℕ) → length (format_unsigned n) ≤ 20
unfolding format_unsigned
length-format_unsigned-le n = length-digits-le 20 n

pub length-format_long-le : (z : ℤ) → length (format_long z) ≤ 21
unfolding format_long
length-format_long-le (pos n) = omega (arith, length-digits-le 20 n)
length-format_long-le (negsuc n) = omega (arith, length-digits-le 20 (suc n))

-- `strlen` of a text without a terminator inside.
pub strlen_nonzero : (s : List ℕ) → AllNonzero s → strlen s ≡ length s
unfolding strlen
strlen_nonzero [] h = refl
strlen_nonzero (c ∷ s) (hc, h) = ground (arith, strlen_nonzero s h)

-- A text that fits is not cut.
pub snprintf_fits : (size : ℕ) (s : List ℕ) → length s < size → snprintf size s ≡ s
unfolding snprintf
snprintf_fits size s h = take_all (size - 1) s (omega arith)
