-- ===== src/Memory/Words.antt =====
-- Laws of `memcpy` and of the bytes of a number.
use native.Mathlib.Nat.{pow-suc}
use edaf55_project.Base.{
  ℕ, zero, suc, ◌+◌, ◌/◌, ◌^◌, ◌≤◌, ◌<◌, ◌≡◌, refl, ap, List, ◌++◌, some, none, length, take, drop,
  arith,
}
use edaf55_project.Memory.{memcpy, le_bytes, le_value}

pub memcpy_inside :
    (dst : List ℕ) (off : ℕ) (src : List ℕ) (n : ℕ)
    → off + n ≤ length dst
    → n ≤ length src
    → memcpy dst off src n ≡ some (take off dst ++ (take n src ++ drop (off + n) dst))
unfolding memcpy
memcpy_inside dst off src n h k = ground arith

pub memcpy_outside :
    (dst : List ℕ) (off : ℕ) (src : List ℕ) (n : ℕ)
    → length dst < off + n
    → memcpy dst off src n ≡ none
unfolding memcpy
memcpy_outside dst off src n h = ground arith

pub length-le_bytes : (k n : ℕ) → length (le_bytes k n) ≡ k
length-le_bytes zero n = refl
length-le_bytes (suc k) n = ap suc (length-le_bytes k (n / 256))

pub le_value-le_bytes : (k n : ℕ) → n < 256 ^ k → le_value (le_bytes k n) ≡ n
le_value-le_bytes zero n h = omega arith
le_value-le_bytes (suc k) n h =
    omega (arith, pow-suc 256 k, le_value-le_bytes k (n / 256) (omega (arith, pow-suc 256 k)))
