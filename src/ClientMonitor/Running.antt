-- ===== src/ClientMonitor/Running.antt =====
-- Sequences of calls of ClientMonitor.java, and what they do to the pictures.
pub mod Flow
pub mod Fifo
pub mod Checks
pub mod Keeps
pub mod Modes
pub mod Waiting
use edaf55_project.Base.{ℕ, List, [], ◌∷◌, ◌++◌, Option, none, some, Bool, true, false}
use edaf55_project.Memory.{◌>>=◌}
use edaf55_project.ClientMonitor.{
  Monitor, Shot, Cam, cam1, cam2, Got, waits, gives, no_element, put_picture, get_picture, set_mode,
  set_forced_sync, set_motion_detected, get_mode_update,
}

-- The calls that change the monitor, each by some thread of the client. The time of `puts` is what
-- the clock gives.
pub data Op : Type 0 where
  puts : Cam → ℕ → Shot → Op
  gets : Cam → Op
  sets_mode : ℕ → Op
  forces_sync : Bool → Op
  detects : Cam → Bool → Op
  updates : Op

-- The monitor behind a call, and the picture it has given. `none` is an exception.
abbrev pub Outcome : Type 0
Outcome = Option (Monitor × List (Cam × Shot))

-- A call that waits leaves the monitor as it is.
abbrev pub got_picture : Cam → Monitor → Got → Outcome
got_picture cam m waits = some (m, [])
got_picture cam m (gives p m') = some (m', (cam, p) ∷ [])
got_picture cam m no_element = none

abbrev pub updated : Monitor → Option (Bool × Monitor) → Monitor
updated m none = m
updated m (some r) = r.1

unfoldable pub step : Op → Monitor → Outcome
unfolding put_picture get_picture set_mode set_forced_sync set_motion_detected get_mode_update
step (puts cam now pic) m = put_picture cam now pic m >>= λ m'. some (m', [])
step (gets cam) m = got_picture cam m (get_picture cam m)
step (sets_mode mode) m = some (set_mode mode m, [])
step (forces_sync sync) m = some (set_forced_sync sync m, [])
step (detects cam detected) m = some (set_motion_detected cam detected m, [])
step updates m = some (updated m (get_mode_update m), [])

-- The calls one after the other: the monitor, and the pictures given, oldest first.
unfoldable pub run : List Op → Monitor → Outcome
unfolding step
run [] m = some (m, [])
run (o ∷ os) m = step o m >>= λ r. run os r.0 >>= λ q. some (q.0, r.1 ++ q.1)
