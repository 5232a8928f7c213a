-- ===== src/ClientMonitor/Running/Keeps.antt =====
-- What the calls of ClientMonitor.java leave of a property of its modes.
use mathlib.Core.Path.{subst}
use mathlib.Core.Option.{some-injective}
use edaf55_project.Base.{ℕ, ◌≡◌, refl, ap, List, [], ◌∷◌, Option, some, if-cases}
use edaf55_project.Memory.{◌>>=◌}
use edaf55_project.ClientMonitor.{
  Monitor, Shot, Cam, cam1, cam2, side, put_picture, get_picture, removed, set_mode,
  set_forced_sync, set_motion_detected, get_mode_update,
}
use edaf55_project.ClientMonitor.Running.{
  Op, puts, gets, sets_mode, forces_sync, detects, updates, got_picture, updated, step,
}
use edaf55_project.ClientMonitor.Running.Fifo.{put_picture-Same}

-- The modes of `n` are those of `m`.
abbrev pub SameModes : Monitor → Monitor → Type 0
SameModes m n = (n.mode ≡ m.mode) × (n.mode_to_send ≡ m.mode_to_send)

-- The calls that touch the modes.
abbrev pub OpKeeps : (Monitor → Type 0) → Op → Type 0
OpKeeps P (sets_mode mode) = (m : Monitor) → P m → P (set_mode mode m)
OpKeeps P (detects cam detected) = (m : Monitor) → P m → P (set_motion_detected cam detected m)
OpKeeps P _ = Unit

-- A property that only reads the modes.
module _ (P : Monitor → Type 0) (reads_modes : (m n : Monitor) → SameModes m n → P m → P n) where
  abbrev Keeps : Option (Monitor × List (Cam × Shot)) → Type 0
  Keeps o = (n : Monitor) (out : List (Cam × Shot)) → o ≡ some (n, out) → P n

  some-Keeps : (m : Monitor) (out : List (Cam × Shot)) → P m → Keeps (some (m, out))
  some-Keeps m out v n out' h = subst P (ap (λ p. p.0) (some-injective _ _ h)) v

  puts-Keeps :
      (cam : Cam) (now : ℕ) (pic : Shot) (m : Monitor)
      → P m
      → Keeps (put_picture cam now pic m >>= λ n. some (n, []))
  puts-Keeps cam1 now pic m v =
      let (n, runs, same) = put_picture-Same cam1 now pic m in
      rw runs (some-Keeps n [] (reads_modes m n (same.2, same.3) v))
  puts-Keeps cam2 now pic m v =
      let (n, runs, same) = put_picture-Same cam2 now pic m in
      rw runs (some-Keeps n [] (reads_modes m n (same.2, same.3) v))

  removed-Keeps :
      (cam : Cam) (m : Monitor) (ps : List Shot)
      → P m
      → Keeps (got_picture cam m (removed cam m ps))
  removed-Keeps cam m [] v = λ n out h. cc
  removed-Keeps cam1 m (p ∷ ps) v = some-Keeps _ _ (reads_modes m _ (refl, refl) v)
  removed-Keeps cam2 m (p ∷ ps) v = some-Keeps _ _ (reads_modes m _ (refl, refl) v)

  pub step-Keeps : (op : Op) (m : Monitor) → OpKeeps P op → P m → Keeps (step op m)
  unfolding step get_picture set_forced_sync get_mode_update
  step-Keeps (puts cam now pic) m keeps v = puts-Keeps cam now pic m v
  step-Keeps (gets cam) m keeps v =
      if-cases (λ g. Keeps (got_picture cam m g)) (side cam m).pic_available
        (λ _. removed-Keeps cam m (side cam m).pic_buffer v) (λ _. some-Keeps m [] v)
  step-Keeps (sets_mode mode) m keeps v = some-Keeps _ [] (keeps m v)
  step-Keeps (forces_sync sync) m keeps v =
      if-cases {A = Monitor} (λ n. Keeps (some (n, []))) sync
        (λ _. some-Keeps _ [] (reads_modes m _ (refl, refl) v)) (λ _. some-Keeps m [] v)
  step-Keeps (detects cam detected) m keeps v = some-Keeps _ [] (keeps m v)
  step-Keeps updates m keeps v =
      if-cases (λ o. Keeps (some (updated m o, []))) m.mode_changed
        (λ _. some-Keeps _ [] (reads_modes m _ (refl, refl) v)) (λ _. some-Keeps m [] v)
