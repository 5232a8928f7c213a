-- ===== src/ModeSender/Bits.antt =====
-- Which modes ClientMonitor.java sends.
use edaf55_project.Base.{ℕ, ◌≤◌, Bool, arith}
use edaf55_project.ClientMonitor.{Monitor, Cam, cam1, cam2, set_mode, set_motion_detected}
use edaf55_project.ClientMonitor.Running.{Op, puts, gets, sets_mode, forces_sync, detects, updates}
use edaf55_project.ClientMonitor.Running.Keeps.{SameModes, OpKeeps}
use edaf55_project.ModeSender.{IsMode}

abbrev pub SendsBit : Monitor → Type 0
SendsBit m = m.mode_to_send ≤ 1

pub SendsBit-SameModes : (m n : Monitor) → SameModes m n → SendsBit m → SendsBit n
SendsBit-SameModes m n (e, f) v = omega (arith, f)

set_mode-SendsBit : (mode : ℕ) → mode ≤ 2 → (m : Monitor) → SendsBit m → SendsBit (set_mode mode m)
unfolding set_mode
set_mode-SendsBit mode h m v = ground arith

set_motion_detected-SendsBit :
    (cam : Cam) (detected : Bool) (m : Monitor)
    → SendsBit m
    → SendsBit (set_motion_detected cam detected m)
unfolding set_motion_detected
set_motion_detected-SendsBit cam1 detected m v = ground arith
set_motion_detected-SendsBit cam2 detected m v = ground arith

pub SendsBit-OpKeeps : (op : Op) → IsMode op → OpKeeps SendsBit op
SendsBit-OpKeeps (sets_mode mode) h = set_mode-SendsBit mode h
SendsBit-OpKeeps (detects cam detected) h = set_motion_detected-SendsBit cam detected
SendsBit-OpKeeps (puts cam now pic) h = tt
SendsBit-OpKeeps (gets cam) h = tt
SendsBit-OpKeeps (forces_sync sync) h = tt
SendsBit-OpKeeps updates h = tt
