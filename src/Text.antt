-- ===== src/Text.antt =====
-- What the programs use of the C library's functions on texts: `strlen`, `strncmp`, `atol`, and `snprintf`
-- with the conversions `%ld`, `%u` and `%s`. A text in memory is the list of its bytes; a literal's
-- terminator is the end of its list. The width of `long` is 32 bits, as on the camera.
pub mod Decimal
pub mod Prefix
pub mod Print
use edaf55_project.Base.{
  ℕ, zero, suc, ◌+◌, ◌-◌, ◌*◌, ◌/◌, ◌%◌, ◌^◌, List, [], ◌∷◌, ◌++◌, take, Option, none, some, Bool,
  true, false, not, ◌&&◌, ◌||◌, ℤ, pos, negsuc, sub_ℕ, ltb, leb, ◌==◌, if◌then◌else◌,
}

-- The byte under a pointer; behind the end of a list stands the terminator.
abbrev pub first_byte : List ℕ → ℕ
first_byte [] = 0
first_byte (c ∷ s) = c

abbrev pub rest_bytes : List ℕ → List ℕ
rest_bytes [] = []
rest_bytes (c ∷ s) = s

-- `strlen`: the bytes before the first 0. A list without a 0 is ended by its terminator.
unfoldable pub strlen : List ℕ → ℕ
strlen [] = 0
strlen (c ∷ s) = let rest = strlen s in if c == 0 then 0 else suc rest

-- `strncmp(a, b, n)` as the test of an `if`: whether the texts differ within `n` bytes. Bytes
-- behind a common terminator are not compared.
unfoldable pub strncmp : List ℕ → List ℕ → ℕ → Bool
strncmp a b zero = false
strncmp a b (suc n) =
    let rest = strncmp (rest_bytes a) (rest_bytes b) n in
    let after = if first_byte a == 0 then false else rest in
    if first_byte a == first_byte b then after else true

abbrev pub is_space : ℕ → Bool
is_space c = c == b' ' || (leb 9 c && leb c 13)

abbrev pub is_digit : ℕ → Bool
is_digit c = leb b'0' c && leb c b'9'

-- `none` stands for a read past the end of the memory that holds the text.
unfoldable pub skip_spaces : List ℕ → Option (List ℕ)
skip_spaces [] = none
skip_spaces (c ∷ s) = let rest = skip_spaces s in if is_space c then rest else some (c ∷ s)

unfoldable pub scan_digits : ℕ → List ℕ → Option ℕ
scan_digits n [] = none
scan_digits n (c ∷ s) =
    let rest = scan_digits (n * 10 + (c - b'0')) s in if is_digit c then rest else some n

abbrev pub long_max : ℕ
long_max = 2 ^ 31 - 1

-- A magnitude with its sign, if a `long` can hold it; otherwise `atol` is undefined.
abbrev pub in_long : Bool → ℕ → Option ℤ
in_long false n = if leb n long_max then some (pos n) else none
in_long true n = if leb n (long_max + 1) then some (sub_ℕ 0 n) else none

abbrev pub long_of : Bool → Option ℕ → Option ℤ
long_of minus none = none
long_of minus (some n) = in_long minus n

abbrev signed_number : List ℕ → Option ℤ
signed_number s =
    if first_byte s == b'-'
    then long_of true (scan_digits 0 (rest_bytes s))
    else if first_byte s == b'+'
    then long_of false (scan_digits 0 (rest_bytes s))
    else long_of false (scan_digits 0 s)

abbrev atol_behind : Option (List ℕ) → Option ℤ
atol_behind none = none
atol_behind (some s) = signed_number s

-- `atol(s)`; `none` where it is undefined: the text has no end in its memory, or the number is out
-- of the range of `long`.
unfoldable pub atol : List ℕ → Option ℤ
unfolding skip_spaces scan_digits
atol s = atol_behind (skip_spaces s)

-- The decimal digits of a number below `10 ^ fuel`.
unfoldable pub digits : ℕ → ℕ → List ℕ
digits zero n = []
digits (suc fuel) n =
    let front = digits fuel (n / 10) in
    if ltb n 10 then (b'0' + n) ∷ [] else front ++ ((b'0' + n % 10) ∷ [])

-- `%u` and `%ld`. Twenty digits hold every number below `2 ^ 64`.
unfoldable pub format_unsigned : ℕ → List ℕ
format_unsigned n = digits 20 n

unfoldable pub format_long : ℤ → List ℕ
format_long (pos n) = digits 20 n
format_long (negsuc n) = b'-' ∷ digits 20 (suc n)

-- `snprintf(dst, size, …)` leaves at most `size - 1` bytes of the formatted text before the 0.
unfoldable pub snprintf : ℕ → List ℕ → List ℕ
snprintf size text = take (size - 1) text
