-- ===== src/MotionClient.antt =====
-- C/source/production/motion_client.c: it asks the motion server for the times, again and again.
-- The signal handler clears `running`; here the number of rounds until then is an argument.
pub mod Polling
pub mod Answered
use edaf55_project.Base.{
  ℕ, zero, suc, List, [], ◌∷◌, Option, none, some, Bool, true, false, codes, ℤ, pos, is_nonzero,
  is_negative, if◌then◌else◌,
}
use edaf55_project.Memory.{◌>>=◌}
use edaf55_project.Text.{atol, snprintf}
use edaf55_project.Socket.{Socket}
use edaf55_project.ServerCommon.{write_string}
use edaf55_project.Os.{Os, Call, call, socket, close, connect, gethostbyname}

-- The global variables, and the calls so far.
pub record Polls : Type 0 where
  pub running : Bool
  pub motionfd : ℤ
  pub calls : List Call

abbrev pub motion_client_port : ℤ
motion_client_port = pos 9091

-- The number that an argument gives, or else the default; `atoi` is `atol` where `int` is as wide
-- as `long`.
abbrev pub number_or : ℤ → Option (List ℕ) → Option ℤ
number_or default none = some default
number_or default (some a) = atol a

-- The period, the server's name and the port, from `argv`: the port only if there are exactly three
-- arguments.
unfoldable pub arguments : List (List ℕ) → Option (ℤ × List ℕ × ℤ)
arguments (program ∷ p ∷ []) =
    number_or (pos 1000) (some p) >>= λ period. some (period, codes "localhost", motion_client_port)
arguments (program ∷ p ∷ name ∷ []) =
    number_or (pos 1000) (some p) >>= λ period. some (period, name, motion_client_port)
arguments (program ∷ p ∷ name ∷ q ∷ []) = number_or (pos 1000) (some p) >>= λ period.
    number_or motion_client_port (some q) >>= λ port. some (period, name, port)
arguments (program ∷ p ∷ name ∷ more) =
    number_or (pos 1000) (some p) >>= λ period. some (period, name, motion_client_port)
arguments _ = some (pos 1000, codes "localhost", motion_client_port)

-- The text in `msg[BUFSZ]`.
abbrev pub bufsz : ℕ
bufsz = 100

unfoldable pub request_text : List ℕ
request_text = snprintf bufsz (codes "GET /motion.txt \n")

module _ (os : Os) where
  unfoldable pub socket_init : Polls → Polls
  unfolding call
  socket_init w = let s = call os socket w.calls in record w { motionfd = s.0; calls = s.1 }

  unfoldable pub socket_close : Polls → Polls
  unfolding call
  socket_close w = record w {
    motionfd = pos 0;
    calls = if is_nonzero w.motionfd then (call os (close w.motionfd) w.calls).1 else w.calls;
  }

  -- `cleanup(sig)`
  unfoldable pub cleanup : Polls → Polls
  unfolding socket_close
  cleanup w = socket_close (record w { running = false })

  -- `init(server_name, port)`: the exit code, if the server's name is not found.
  unfoldable pub init : List Call → Option ℤ × List Call
  unfolding call
  init log =
      let h = call os gethostbyname log in (if is_nonzero h.0 then none else some (pos 1), h.1)

  module _ (S : Socket) (reply : S.State → Option (List ℕ)) where
    -- `motion_get()` on a new connection in the state `s`: the printed response, the variables and
    -- the connection. `reply` is what `read` gives, or none if it fails.
    unfoldable pub motion_get : Polls → S.State → Option (Option (List ℕ) × Polls × S.State)
    unfolding socket_init socket_close call
    motion_get w s =
        let w' = socket_init w in
        let c = call os (connect w'.motionfd) w'.calls in
        let tried = record w' { calls = c.1 } in
        let asked = write_string S s request_text >>= λ sent.
        some (if is_negative sent.0 then none else reply sent.1, socket_close tried, sent.1) in
        if is_negative c.0 then some (none, tried, s) else asked

    -- `poll_motion(period)`: the variables behind so many rounds, each on a new connection.
    unfoldable pub poll_motion : ℕ → (ℕ → S.State) → Polls → Option Polls
    unfolding motion_get
    poll_motion zero connections w = some w
    poll_motion (suc rounds) connections w =
        motion_get w (connections rounds) >>= λ r. poll_motion rounds connections r.1
