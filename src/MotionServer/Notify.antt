-- ===== src/MotionServer/Notify.antt =====
-- C/source/production/motion_server.c: `motion_task` and `try_accept_motion`. What its `poll`,
-- `accept`, `read` and `close` give is an argument, one arrival for each round behind the
-- waiting; the answer on the connection is a constant text, and its result is not looked at.
pub mod Latest
pub mod Faked
use edaf55_project.Base.{
  ℕ, ◌-◌, List, [], ◌∷◌, ◌++◌, length, drop, replicate, Option, none, some, Bool, true, false, ℤ,
  pos, negsuc, is_nonzero, if◌then◌else◌,
}
use edaf55_project.MotionServer.{GlobalState}
use edaf55_project.MotionServer.Request.{parse_motion_request}

-- What ends the waiting: `poll` fails; `accept` gives a negative number; `accept` gives the
-- descriptor `fd` and `read` fails; bytes are read from `fd` at the time `now`, and `close` gives
-- `closing` afterwards; or another thread has quit the server. The other numbers of the failures
-- are `errno`.
pub data Arrival : Type 0 where
  unpolled : ℤ → Arrival
  refused : ℕ → ℤ → Arrival
  unread : ℕ → ℤ → Arrival
  request : ℕ → List ℕ → ℤ → ℤ → Arrival
  stopped : Arrival

-- The buffer of 1024 bytes behind `read(fd, buf, 1024)`: older bytes stay.
abbrev pub received : List ℕ → List ℕ → List ℕ
received buf d = d ++ drop (length d) buf

-- Where the thread is: it has ended with a result, or it waits with a buffer and the result so
-- far.
pub data Motion : Type 0 where
  ended : ℤ → GlobalState → Motion
  waits : List ℕ → ℤ → GlobalState → Motion

-- What a round does with the result of `parse_motion_request`; `none` is undefined.
abbrev pub parsed : List ℕ → ℤ → ℤ → Option (ℕ × GlobalState) → Option Motion
parsed buf result closing none = none
parsed buf result closing (some (hres, state)) =
    some (if is_nonzero closing then ended closing state else waits buf result state)

-- `try_accept_motion(state)`: `motioncfd` is what `accept` gives.
abbrev pub try_accept_motion : ℤ → GlobalState → GlobalState
try_accept_motion fd state = record state { motioncfd = fd }

-- A round of `motion_task` behind the waiting.
unfoldable pub motion_round : Arrival → List ℕ → ℤ → GlobalState → Option Motion
motion_round (unpolled errno) buf result state = some (ended errno state)
motion_round (refused k errno) buf result state =
    some (waits buf errno (try_accept_motion (negsuc k) state))
motion_round (unread fd errno) buf result state =
    some (ended errno (try_accept_motion (pos fd) state))
motion_round (request fd d now closing) buf result state =
    let buf' = received buf d in
    parsed buf' result closing (parse_motion_request buf' now (try_accept_motion (pos fd) state))
motion_round stopped buf result state =
    some (ended result (record state { running = false; quit = true }))

-- The rounds that the arrivals make.
abbrev pub next_round : (List ℕ → ℤ → GlobalState → Option Motion) → Option Motion → Option Motion
next_round rest none = none
next_round rest (some (ended result state)) = some (ended result state)
next_round rest (some (waits buf result state)) = rest buf result state

unfoldable pub motion_loop : List Arrival → List ℕ → ℤ → GlobalState → Option Motion
unfolding motion_round
motion_loop [] buf result state = some (waits buf result state)
motion_loop (a ∷ arrivals) buf result state =
    next_round (motion_loop arrivals) (motion_round a buf result state)

-- `motion_task(ctxt)`, started with the server running.
unfoldable pub motion_task : List Arrival → GlobalState → Option Motion
unfolding motion_loop
motion_task arrivals state =
    motion_loop arrivals (replicate 1024 0) (pos 0) (record state { mfd = state.motionfd })
