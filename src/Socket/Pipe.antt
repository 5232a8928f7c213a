-- ===== src/Socket/Pipe.antt =====
-- A concrete socket that meets the assumptions: each entry of `limits` is one call, which fails or
-- takes at most so many bytes and one more; behind the last entry a call takes all it is offered.
use edaf55_project.Base.{
  ℕ, suc, ◌≤◌, ◌<◌, min, ◌≡◌, List, [], ◌∷◌, ◌++◌, Option, none, some, take, length, ℤ, pos, negsuc,
  arith, take-length,
}
use edaf55_project.Socket.{Socket, IsLawful}

pub record Pipe : Type 0 where
  pub limits : List (Option ℕ)
  pub out : List ℕ

abbrev pipe_step : List (Option ℕ) → List ℕ → List ℕ → ℤ × Pipe
pipe_step [] out d = (pos (length d), record { limits = []; out = out ++ d })
pipe_step (none ∷ ls) out d = (negsuc 0, record { limits = ls; out = out })
pipe_step (some l ∷ ls) out d = (
  pos (min (suc l) (length d)),
  record { limits = ls; out = out ++ take (min (suc l) (length d)) d },
)

abbrev pub pipe : Socket
pipe = record { State = Pipe; send = λ s d. pipe_step s.limits s.out d; wire = λ s. s.out }

record IsSendResult (out d : List ℕ) (k : ℕ) (t : Pipe) : Type 0 where
  bounded : k ≤ length d
  progress : 0 < length d → 0 < k
  delivers : t.out ≡ out ++ take k d

pipe_step-pos :
    (ls : List (Option ℕ)) (out d : List ℕ) (k : ℕ) (t : Pipe)
    → pipe_step ls out d ≡ (pos k, t)
    → IsSendResult out d k t
pipe_step-pos [] out d k t h = record {
  bounded = ground arith;
  progress = λ p. ground arith;
  delivers = ground (arith, take-length d);
}
pipe_step-pos (none ∷ ls) out d k t h = cc
pipe_step-pos (some l ∷ ls) out d k t h = record {
  bounded = ground arith;
  progress = λ p. ground arith;
  delivers = ground arith;
}

pipe_step-negsuc :
    (ls : List (Option ℕ)) (out d : List ℕ) (e : ℕ) (t : Pipe)
    → pipe_step ls out d ≡ (negsuc e, t)
    → t.out ≡ out
pipe_step-negsuc [] out d e t h = ground arith
pipe_step-negsuc (none ∷ ls) out d e t h = ground arith
pipe_step-negsuc (some l ∷ ls) out d e t h = ground arith

pub pipe-IsLawful : IsLawful pipe
pipe-IsLawful = record {
  bounded = λ s t d k h. (pipe_step-pos s.limits s.out d k t h).bounded;
  progress = λ s t d k h. (pipe_step-pos s.limits s.out d k t h).progress;
  delivers = λ s t d k h. (pipe_step-pos s.limits s.out d k t h).delivers;
  fails = λ s t d e h. pipe_step-negsuc s.limits s.out d e t h;
}
