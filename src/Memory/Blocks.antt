-- ===== src/Memory/Blocks.antt =====
-- The blocks of `malloc` and `free`. The C library chooses the addresses, so they are a parameter,
-- which may depend on all calls before.
use edaf55_project.Base.{
  ℕ, List, [], ◌∷◌, Option, none, some, Bool, true, false, ◌≡◌, ◌==◌, if◌then◌else◌,
}

-- The calls, newest first: `malloc` with its result, and `free` of a pointer that is not NULL.
pub data Event : Type 0 where
  allocated freed : ℕ → Event

abbrev pub Allocator : Type 0
Allocator = List Event → ℕ

-- The address is that of a block which is allocated and not freed.
abbrev pub is_live : ℕ → List Event → Bool
is_live p [] = false
is_live p (allocated q ∷ log) = let rest = is_live p log in if q == p then true else rest
is_live p (freed q ∷ log) = let rest = is_live p log in if q == p then false else rest

abbrev pub malloc : Allocator → List Event → ℕ × List Event
malloc alloc log = (alloc log, allocated (alloc log) ∷ log)

-- `none` where the pointer is not that of a live block, which is undefined; NULL is left alone.
unfoldable pub free : ℕ → List Event → Option (List Event)
free p log =
    let done = if is_live p log then some (freed p ∷ log) else none in
    if p == 0 then some log else done

-- There is room, and, as C documents it, a new block is none of the live ones.
pub record Allocates (alloc : Allocator) : Type 0 where
  pub room : (log : List Event) → (alloc log == 0) ≡ false
  pub fresh : (log : List Event) → is_live (alloc log) log ≡ false

-- The same blocks are live.
abbrev pub SameBlocks : List Event → List Event → Type 0
SameBlocks log log' = (p : ℕ) → is_live p log' ≡ is_live p log
