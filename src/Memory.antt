-- ===== src/Memory.antt =====
-- Arrays of bytes as the C programs see them: `memcpy` into an array, and the bytes of an unsigned
-- number in memory. The cameras are little-endian (`mipsisa32r2el` in C/source/production/Makefile).
pub mod Words
pub mod Blocks
use edaf55_project.Base.{
  ℕ, zero, suc, ◌+◌, ◌*◌, ◌/◌, ◌%◌, List, [], ◌∷◌, ◌++◌, Option, none, some, ◌&&◌, leb, length,
  take, drop, if◌then◌else◌,
}

-- `memcpy(dst + off, src, n)`: `none` if it reads or writes outside the two arrays, which is
-- undefined.
unfoldable pub memcpy : List ℕ → ℕ → List ℕ → ℕ → Option (List ℕ)
memcpy dst off src n =
    if leb (off + n) (length dst) && leb n (length src)
    then some (take off dst ++ (take n src ++ drop (off + n) dst))
    else none

-- The `k` lowest bytes of a number, lowest first, and the number that such bytes spell.
abbrev pub le_bytes : ℕ → ℕ → List ℕ
le_bytes zero n = []
le_bytes (suc k) n = (n % 256) ∷ le_bytes k (n / 256)

abbrev pub le_value : List ℕ → ℕ
le_value [] = 0
le_value (b ∷ bs) = b + 256 * le_value bs

-- A chain of steps that may be undefined.
infixl 5 ◌>>=◌
abbrev pub ◌>>=◌ {ℓ κ} : {A : Type ℓ} {B : Type κ} → Option A → (A → Option B) → Option B
none >>= f = none
some a >>= f = f a
