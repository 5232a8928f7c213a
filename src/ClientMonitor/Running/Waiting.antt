-- ===== src/ClientMonitor/Running/Waiting.antt =====
-- `getPicture` of ClientMonitor.java behind a picture that it has given.
use mathlib.Core.Path.{subst}
use mathlib.Core.Option.{some-injective}
use edaf55_project.Base.{
  ℕ, ◌≡◌, refl, ◌∙◌, ap, sym, List, [], ◌∷◌, ◌++◌, append-nil, some, true, false, if-cases, arith,
}
use edaf55_project.Memory.{◌>>=◌}
use edaf55_project.ClientMonitor.{
  Monitor, Shot, Cam, cam1, cam2, side, put_picture, get_picture, Got, gives, removed, new_monitor,
}
use edaf55_project.ClientMonitor.Running.{
  Op, puts, gets, sets_mode, forces_sync, detects, updates, Outcome, got_picture, step, run,
}
use edaf55_project.ClientMonitor.Running.Flow.{
  AllReady, images, of_cam, of_cam-append, put_by, put_images, SameSides,
}
use edaf55_project.ClientMonitor.Running.Fifo.{
  put_picture-Same, run-Moves, step-Moves, new_monitor-AllReady, set_mode-SameSides,
  set_forced_sync-SameSides, set_motion_detected-SameSides, get_mode_update-SameSides,
}

-- No picture of the camera is available, whatever its buffer holds.
abbrev pub IsIdle : Cam → Monitor → Type 0
IsIdle c m = (side c m).pic_available ≡ false

abbrev StaysIdle : Cam → Outcome → Type 0
StaysIdle c o =
    (n : Monitor) (out : List (Cam × Shot)) → o ≡ some (n, out) → IsIdle c n × (of_cam c out ≡ [])

some-StaysIdle :
    (c : Cam) (m : Monitor) (out : List (Cam × Shot))
    → IsIdle c m
    → of_cam c out ≡ []
    → StaysIdle c (some (m, out))
some-StaysIdle c m out idle gone n out' h = (
  subst (IsIdle c) (ap (λ p. p.0) (some-injective _ _ h)) idle,
  ap (of_cam c) (sym (ap (λ p. p.1) (some-injective _ _ h))) ∙ gone,
)

SameSides-StaysIdle :
    (c : Cam) (m n : Monitor) → IsIdle c m → SameSides m n → StaysIdle c (some (n, []))
SameSides-StaysIdle cam1 m n idle v = some-StaysIdle cam1 n [] (v.0.1 ∙ idle) refl
SameSides-StaysIdle cam2 m n idle v = some-StaysIdle cam2 n [] (v.1.1 ∙ idle) refl

puts-StaysIdle :
    (c cam : Cam) (now : ℕ) (pic : Shot) (m : Monitor)
    → put_by c (puts cam now pic) ≡ []
    → IsIdle c m
    → StaysIdle c (put_picture cam now pic m >>= λ n. some (n, []))
puts-StaysIdle cam1 cam1 now pic m none_put idle = absurd (ground (arith, none_put))
puts-StaysIdle cam2 cam2 now pic m none_put idle = absurd (ground (arith, none_put))
puts-StaysIdle cam1 cam2 now pic m none_put idle =
    let (n, runs, v) = put_picture-Same cam2 now pic m in
    rw runs (some-StaysIdle cam1 n [] (v.0.1 ∙ idle) refl)
puts-StaysIdle cam2 cam1 now pic m none_put idle =
    let (n, runs, v) = put_picture-Same cam1 now pic m in
    rw runs (some-StaysIdle cam2 n [] (v.1.1 ∙ idle) refl)

removed-StaysIdle :
    (c cam : Cam) (m : Monitor) (ps : List Shot)
    → (side cam m).pic_available ≡ true
    → IsIdle c m
    → StaysIdle c (got_picture cam m (removed cam m ps))
removed-StaysIdle c cam m [] there idle = λ n out h. cc
removed-StaysIdle cam1 cam1 m (p ∷ ps) there idle = cc
removed-StaysIdle cam2 cam2 m (p ∷ ps) there idle = cc
removed-StaysIdle cam1 cam2 m (p ∷ ps) there idle = some-StaysIdle cam1 _ _ idle refl
removed-StaysIdle cam2 cam1 m (p ∷ ps) there idle = some-StaysIdle cam2 _ _ idle refl

step-StaysIdle :
    (c : Cam) (op : Op) (m : Monitor) → put_by c op ≡ [] → IsIdle c m → StaysIdle c (step op m)
unfolding step get_picture
step-StaysIdle c (puts cam now pic) m none_put idle = puts-StaysIdle c cam now pic m none_put idle
step-StaysIdle c (gets cam) m none_put idle =
    if-cases (λ g. StaysIdle c (got_picture cam m g)) (side cam m).pic_available
      (λ there. removed-StaysIdle c cam m (side cam m).pic_buffer there idle)
      (λ _. some-StaysIdle c m [] idle (of_cam-nil c))
  where
    of_cam-nil : (c : Cam) → of_cam c [] ≡ []
    of_cam-nil c = refl
step-StaysIdle c (sets_mode mode) m none_put idle =
    SameSides-StaysIdle c m _ idle (set_mode-SameSides mode m)
step-StaysIdle c (forces_sync sync) m none_put idle =
    SameSides-StaysIdle c m _ idle (set_forced_sync-SameSides sync m)
step-StaysIdle c (detects cam detected) m none_put idle =
    SameSides-StaysIdle c m _ idle (set_motion_detected-SameSides cam detected m)
step-StaysIdle c updates m none_put idle =
    SameSides-StaysIdle c m _ idle (get_mode_update-SameSides m)

no_append {ℓ} : {A : Type ℓ} (xs ys : List A) → xs ++ ys ≡ [] → (xs ≡ []) × (ys ≡ [])
no_append [] ys h = (refl, h)
no_append (x ∷ xs) ys h = cc

run-idle :
    (c : Cam) (ops : List Op) (m : Monitor)
    → AllReady m
    → put_images c ops ≡ []
    → IsIdle c m
    → (n : Monitor) × (out : List (Cam × Shot)) × (run ops m ≡ some (n, out)) × (of_cam c out ≡ [])
unfolding run
run-idle c [] m ready none_put idle = (m, [], refl, refl)
run-idle c (op ∷ ops) m ready none_put idle =
    let (now, later) = no_append (put_by c op) (put_images c ops) none_put in
    let (i, first, once, flow) = step-Moves op m ready in
    let (idle', gone) = step-StaysIdle c op m now idle i first once in
    let (n, out, runs, gone') = run-idle c ops i (λ d. (flow d).0) later idle' in
    (
      n,
      first ++ out,
      ap (λ o. o >>= λ r. run ops r.0 >>= λ q. some (q.0, r.1 ++ q.1)) once
          ∙ ap (λ o. o >>= λ q. some (q.0, first ++ q.1)) runs,
      of_cam-append c first out ∙ ap (λ l. l ++ of_cam c out) gone ∙ gone',
    )

-- A picture that is given leaves the camera idle.
abbrev GivesIdle : Cam → Got → Type 0
GivesIdle c g = (p : Shot) (n : Monitor) → g ≡ gives p n → IsIdle c n

monitor_of : Monitor → Got → Monitor
monitor_of m (gives p n) = n
monitor_of m _ = m

removed-GivesIdle : (c : Cam) (m : Monitor) (ps : List Shot) → GivesIdle c (removed c m ps)
unfolding monitor_of
removed-GivesIdle c m [] = λ p n h. cc
removed-GivesIdle cam1 m (q ∷ ps) = λ p n h. subst (IsIdle cam1) (ap (monitor_of m) h) refl
removed-GivesIdle cam2 m (q ∷ ps) = λ p n h. subst (IsIdle cam2) (ap (monitor_of m) h) refl

get_picture-GivesIdle : (c : Cam) (m : Monitor) → GivesIdle c (get_picture c m)
unfolding get_picture
get_picture-GivesIdle c m =
    if-cases (GivesIdle c) (side c m).pic_available
      (λ _. removed-GivesIdle c m (side c m).pic_buffer) (λ _ p n h. cc)

-- Behind any calls from a new monitor: if `getPicture` gives a picture of a camera, then no later
-- call gives another one of that camera before the next `putPicture` for it, also where pictures
-- are left in its buffer; and they stay there.
pub get_picture-idle :
    (c : Cam) (before after : List Op) (m n : Monitor) (seen : List (Cam × Shot)) (p : Shot)
    → run before new_monitor ≡ some (m, seen)
    → get_picture c m ≡ gives p n
    → put_images c after ≡ []
    → (k : Monitor) × (out : List (Cam × Shot)) × (run after n ≡ some (k, out))
      × (of_cam c out ≡ [])
      × (images (side c k).pic_buffer ≡ images (side c n).pic_buffer)
unfolding step
get_picture-idle c before after m n seen p runs gave none_put =
    let (m', _, runs', flow) = run-Moves before new_monitor new_monitor-AllReady in
    let same : m' ≡ m = ap (λ r. r.0) (some-injective _ _ (sym runs' ∙ runs)) in
    let ready : AllReady m = subst AllReady same (λ d. (flow d).0) in
    let (n', _, once, flow') = step-Moves (gets c) m ready in
    let same' : n' ≡ n =
      ap (λ r. r.0) (some-injective _ _ (sym once ∙ ap (got_picture c m) gave)) in
    let ready' : AllReady n = subst AllReady same' (λ d. (flow' d).0) in
    let idle = get_picture-GivesIdle c m p n gave in
    let (k, out, more, gone) = run-idle c after n ready' none_put idle in
    let (k', out', more', flow'') = run-Moves after n ready' in
    let e : ◌≡◌ {A = Monitor × List (Cam × Shot)} (k', out') (k, out) =
      some-injective _ _ (sym more' ∙ more) in
    (
      k,
      out,
      more,
      gone,
      ap (λ l. l ++ images (side c k).pic_buffer) (sym gone)
          ∙ subst
              (λ r.
                of_cam c r.1 ++ images (side c r.0).pic_buffer
                ≡ images (side c n).pic_buffer ++ put_images c after)
              e (flow'' c).1
          ∙ ap (λ l. images (side c n).pic_buffer ++ l) none_put
          ∙ append-nil (images (side c n).pic_buffer),
    )
