-- ===== src/Socket.antt =====
-- The stream socket that the programs write to. `send` and `write` are calls of the operating
-- system, so they are a parameter: a state of the connection, the call, and the bytes that have
-- gone out so far. `IsLawful` is what POSIX documents of a blocking stream socket.
use edaf55_project.Base.{ℕ, ◌≤◌, ◌<◌, ◌≡◌, List, ◌++◌, take, length, ℤ, pos, negsuc}
pub mod Pipe

pub record Socket : Type 1 where
  pub State : Type 0
  -- `send(fd, d, length d, …)`: the result and the state afterwards.
  pub send : State → List ℕ → ℤ × State
  -- The bytes handed to the connection so far, oldest first.
  pub wire : State → List ℕ

pub record IsLawful (S : Socket) : Type 0 where
  -- A result is never more than was offered, and not 0 unless nothing was offered.
  pub bounded : (s t : S.State) (d : List ℕ) (k : ℕ) → S.send s d ≡ (pos k, t) → k ≤ length d
  pub progress :
      (s t : S.State) (d : List ℕ) (k : ℕ) → S.send s d ≡ (pos k, t) → 0 < length d → 0 < k
  -- The result counts the bytes that went out, from the front; an error sends nothing.
  pub delivers :
      (s t : S.State) (d : List ℕ) (k : ℕ)
      → S.send s d ≡ (pos k, t)
      → S.wire t ≡ S.wire s ++ take k d
  pub fails :
      (s t : S.State) (d : List ℕ) (e : ℕ) → S.send s d ≡ (negsuc e, t) → S.wire t ≡ S.wire s
