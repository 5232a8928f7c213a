-- ===== src/ClientMonitor/Running/Modes.antt =====
-- The mode that ClientMonitor.java keeps and sends.
use edaf55_project.Base.{
  ℕ, suc, ◌≡◌, refl, ◌∙◌, ap, List, [], ◌∷◌, ◌++◌, none, some, Bool, true, false, ◌==◌, arith,
}
use edaf55_project.Memory.{◌>>=◌}
use edaf55_project.ClientMonitor.{
  Monitor, Shot, Cam, cam1, cam2, set_mode, set_motion_detected, get_mode, get_new_mode,
  new_monitor, mode_auto,
}
use edaf55_project.ClientMonitor.Running.{
  Op, puts, gets, sets_mode, forces_sync, detects, updates, run,
}
use edaf55_project.ClientMonitor.Running.Keeps.{SameModes, OpKeeps, step-Keeps}
use edaf55_project.ClientMonitor.Running.Flow.{AllReady, SameSides-AllReady}
use edaf55_project.ClientMonitor.Running.Fifo.{
  run-Moves, step-Moves, new_monitor-AllReady, set_mode-SameSides,
}

-- No call sets another mode than the automatic one.
abbrev pub AutoOnly : List Op → Type 0
AutoOnly [] = Unit
AutoOnly (sets_mode mode ∷ ops) = (mode ≡ mode_auto) × AutoOnly ops
AutoOnly (_ ∷ ops) = AutoOnly ops

abbrev pub HasMode : ℕ → Monitor → Type 0
HasMode k m = (m.mode ≡ suc k) × (m.mode_to_send ≡ k)

set_motion_detected-HasMode :
    (k : ℕ) (cam : Cam) (detected : Bool) (m : Monitor)
    → HasMode k m
    → HasMode k (set_motion_detected cam detected m)
unfolding set_motion_detected
set_motion_detected-HasMode k cam1 detected m (a, b) =
    let other_mode : (m.mode == mode_auto) ≡ false = ground (arith, a) in rw other_mode (a, b)
set_motion_detected-HasMode k cam2 detected m (a, b) =
    let other_mode : (m.mode == mode_auto) ≡ false = ground (arith, a) in rw other_mode (a, b)

HasMode-OpKeeps : (k : ℕ) (op : Op) → AutoOnly (op ∷ []) → OpKeeps (HasMode k) op
unfolding set_mode
HasMode-OpKeeps k (sets_mode mode) (auto, _) = λ m v. rw auto v
HasMode-OpKeeps k (detects cam detected) auto = set_motion_detected-HasMode k cam detected
HasMode-OpKeeps k (puts cam now pic) auto = tt
HasMode-OpKeeps k (gets cam) auto = tt
HasMode-OpKeeps k (forces_sync sync) auto = tt
HasMode-OpKeeps k updates auto = tt

HasMode-SameModes : (k : ℕ) (m n : Monitor) → SameModes m n → HasMode k m → HasMode k n
HasMode-SameModes k m n (e, f) (a, b) = (e ∙ a, f ∙ b)

AutoOnly-step : (op : Op) (ops : List Op) → AutoOnly (op ∷ ops) → AutoOnly (op ∷ []) × AutoOnly ops
AutoOnly-step (sets_mode mode) ops (a, h) = ((a, tt), h)
AutoOnly-step (puts cam now pic) ops h = (tt, h)
AutoOnly-step (gets cam) ops h = (tt, h)
AutoOnly-step (forces_sync sync) ops h = (tt, h)
AutoOnly-step (detects cam detected) ops h = (tt, h)
AutoOnly-step updates ops h = (tt, h)

run-HasMode :
    (k : ℕ) (ops : List Op) (m : Monitor)
    → AllReady m
    → AutoOnly ops
    → HasMode k m
    → (n : Monitor) × (out : List (Cam × Shot)) × (run ops m ≡ some (n, out)) × HasMode k n
unfolding run
run-HasMode k [] m ready auto v = (m, [], refl, v)
run-HasMode k (op ∷ ops) m ready auto v =
    let (now, later) = AutoOnly-step op ops auto in
    let (i, first, once, flow) = step-Moves op m ready in
    let (n, out, runs, v') =
      run-HasMode k ops i (λ c. (flow c).0) later
        (step-Keeps (HasMode k) (HasMode-SameModes k) op m (HasMode-OpKeeps k op now) v i first
          once) in
    (
      n,
      first ++ out,
      ap (λ o. o >>= λ r. run ops r.0 >>= λ q. some (q.0, r.1 ++ q.1)) once
          ∙ ap (λ o. o >>= λ q. some (q.0, first ++ q.1)) runs,
      v',
    )

set_mode-changed : (k : ℕ) (m : Monitor) → HasMode k (set_mode (suc k) m)
unfolding set_mode
set_mode-changed k m =
    let other_mode : (suc k == mode_auto) ≡ false = ground arith in
    rw other_mode (refl, omega arith)

get_new_mode-same : (k : ℕ) (m : Monitor) → m.mode_to_send ≡ k → get_new_mode k m ≡ none
unfolding get_new_mode
get_new_mode-same k m e = let same : (k == m.mode_to_send) ≡ true = ground (arith, e) in rw same

-- The automatic mode cannot be had again: behind any calls, once `setMode` has been called with
-- another mode, that mode stays and is the one to send, through all calls that put and get
-- pictures, see motion, or set the automatic mode.
pub set_mode-HasMode :
    (before after : List Op) (k : ℕ)
    → AutoOnly after
    → (m : Monitor) × (seen : List (Cam × Shot)) × (run before new_monitor ≡ some (m, seen))
      × (n : Monitor) × (out : List (Cam × Shot)) × (run after (set_mode (suc k) m) ≡ some (n, out))
      × (get_mode n ≡ suc k)
      × (get_new_mode k n ≡ none)
unfolding get_mode
set_mode-HasMode before after k auto =
    let (m, seen, runs, flow) = run-Moves before new_monitor new_monitor-AllReady in
    let (n, out, more, (mode, to_send)) =
      run-HasMode k after (set_mode (suc k) m)
        (SameSides-AllReady m (set_mode (suc k) m) (λ c. (flow c).0) (set_mode-SameSides (suc k) m))
        auto (set_mode-changed k m) in
    (m, seen, runs, n, out, more, mode, get_new_mode-same k n to_send)
