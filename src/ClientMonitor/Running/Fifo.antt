-- ===== src/ClientMonitor/Running/Fifo.antt =====
-- The pictures that are put and given, for each camera.
use edaf55_project.Base.{
  ℕ, ◌<◌, ◌≡◌, refl, ◌∙◌, ap, sym, List, [], ◌∷◌, ◌++◌, append-nil, append_assoc, length, some,
  Bool, false, ◌==◌, if-cases, arith,
}
use edaf55_project.Memory.{◌>>=◌}
use edaf55_project.ClientMonitor.{
  Monitor, Side, Shot, Cam, cam1, cam2, side, other, with_side, with_picture, put_picture,
  get_picture, removed, set_mode, set_forced_sync, set_motion_detected, get_mode_update,
  new_monitor, mode_auto,
}
use edaf55_project.ClientMonitor.Running.{
  Op, puts, gets, sets_mode, forces_sync, detects, updates, got_picture, updated, step, run,
}
use edaf55_project.ClientMonitor.Running.Checks.{Same, IsSame, Same-refl, sync_req_check-Same}
use edaf55_project.ClientMonitor.Running.Flow.{
  images, of_cam, put_by, put_images, of_cam-append, Flow, Same-Flow, with_picture-Flow, AllReady,
  Moves, SameSides, SameSides-Moves,
}

pub put_picture-Same :
    (cam : Cam) (now : ℕ) (pic : Shot) (m : Monitor)
    → IsSame (with_side cam (with_picture now pic (side cam m)) m) (put_picture cam now pic m)
unfolding put_picture
put_picture-Same cam now pic m =
    let s = with_picture now pic (side cam m) in
    let m' = with_side cam s m in
    if-cases (IsSame m') ((side (other cam) m).last_pic == 0) (λ _. (m', refl, Same-refl m'))
      (λ _. sync_req_check-Same cam s.last_pic m')

put_picture-Flow :
    (cam : Cam) (now : ℕ) (pic : Shot) (m n : Monitor)
    → AllReady m
    → Same (with_side cam (with_picture now pic (side cam m)) m) n
    → (c : Cam) → Flow (side c m) (side c n) [] (put_by c (puts cam now pic))
put_picture-Flow cam1 now pic m n ready v cam1 = with_picture-Flow now pic m.side1 n.side1 v.0
put_picture-Flow cam1 now pic m n ready v cam2 = Same-Flow m.side2 n.side2 (ready cam2) v.1
put_picture-Flow cam2 now pic m n ready v cam1 = Same-Flow m.side1 n.side1 (ready cam1) v.0
put_picture-Flow cam2 now pic m n ready v cam2 = with_picture-Flow now pic m.side2 n.side2 v.1

puts-Moves :
    (cam : Cam) (now : ℕ) (pic : Shot) (m : Monitor)
    → AllReady m
    → Moves m (puts cam now pic) (step (puts cam now pic) m)
unfolding step
puts-Moves cam now pic m ready =
    let (n, runs, v) = put_picture-Same cam now pic m in
    (n, [], ap (λ o. o >>= λ m'. some (m', [])) runs, put_picture-Flow cam now pic m n ready v)

abbrev behind_removal : List Shot → Side → Side
behind_removal ps s = record s { pic_buffer = ps; pic_available = false }

removal-Flow :
    (s : Side) (p : Shot) (ps : List Shot)
    → s.pic_buffer ≡ p ∷ ps
    → Flow s (behind_removal ps s) (p.byte_stream ∷ []) []
removal-Flow s p ps e = (λ h. cc, ap images (sym e) ∙ sym (append-nil (images s.pic_buffer)))

removed-Flow :
    (cam : Cam) (m : Monitor) (p : Shot) (ps : List Shot)
    → AllReady m
    → (side cam m).pic_buffer ≡ p ∷ ps
    → (c : Cam)
    → Flow
        (side c m)
        (side c (with_side cam (behind_removal ps (side cam m)) m))
        (of_cam c ((cam, p) ∷ []))
        (put_by c (gets cam))
removed-Flow cam1 m p ps ready e cam1 = removal-Flow m.side1 p ps e
removed-Flow cam1 m p ps ready e cam2 = Same-Flow m.side2 m.side2 (ready cam2) (refl, refl)
removed-Flow cam2 m p ps ready e cam1 = Same-Flow m.side1 m.side1 (ready cam1) (refl, refl)
removed-Flow cam2 m p ps ready e cam2 = removal-Flow m.side2 p ps e

removed-Moves :
    (cam : Cam) (m : Monitor) (ps : List Shot)
    → AllReady m
    → (side cam m).pic_buffer ≡ ps
    → 0 < length ps
    → Moves m (gets cam) (got_picture cam m (removed cam m ps))
removed-Moves cam m [] ready e some_left = absurd (omega arith)
removed-Moves cam m (p ∷ ps) ready e some_left = (
  with_side cam (behind_removal ps (side cam m)) m,
  (cam, p) ∷ [],
  refl,
  removed-Flow cam m p ps ready e,
)

gets-Moves : (cam : Cam) (m : Monitor) → AllReady m → Moves m (gets cam) (step (gets cam) m)
unfolding step get_picture
gets-Moves cam m ready =
    if-cases (λ g. Moves m (gets cam) (got_picture cam m g)) (side cam m).pic_available
      (λ yes-eq. removed-Moves cam m (side cam m).pic_buffer ready refl (ready cam yes-eq))
      (λ _. SameSides-Moves m m (gets cam) ready ((refl, refl), (refl, refl)) refl refl)

pub set_mode-SameSides : (mode : ℕ) (m : Monitor) → SameSides m (set_mode mode m)
unfolding set_mode
set_mode-SameSides mode m =
    if-cases (SameSides m) (mode == mode_auto) (λ _. ((refl, refl), (refl, refl)))
      (λ _. ((refl, refl), (refl, refl)))

pub set_forced_sync-SameSides : (sync : Bool) (m : Monitor) → SameSides m (set_forced_sync sync m)
unfolding set_forced_sync
set_forced_sync-SameSides sync m =
    if-cases (SameSides m) sync (λ _. ((refl, refl), (refl, refl)))
      (λ _. ((refl, refl), (refl, refl)))

pub set_motion_detected-SameSides :
    (cam : Cam) (detected : Bool) (m : Monitor) → SameSides m (set_motion_detected cam detected m)
unfolding set_motion_detected
set_motion_detected-SameSides cam1 detected m =
    if-cases (SameSides m) (m.mode == mode_auto) (λ _. ((refl, refl), (refl, refl)))
      (λ _. ((refl, refl), (refl, refl)))
set_motion_detected-SameSides cam2 detected m =
    if-cases (SameSides m) (m.mode == mode_auto) (λ _. ((refl, refl), (refl, refl)))
      (λ _. ((refl, refl), (refl, refl)))

pub get_mode_update-SameSides : (m : Monitor) → SameSides m (updated m (get_mode_update m))
unfolding get_mode_update
get_mode_update-SameSides m =
    if-cases (λ o. SameSides m (updated m o)) m.mode_changed (λ _. ((refl, refl), (refl, refl)))
      (λ _. ((refl, refl), (refl, refl)))

pub step-Moves : (op : Op) (m : Monitor) → AllReady m → Moves m op (step op m)
unfolding step
step-Moves (puts cam now pic) m ready = puts-Moves cam now pic m ready
step-Moves (gets cam) m ready = gets-Moves cam m ready
step-Moves (sets_mode mode) m ready =
    SameSides-Moves m _ (sets_mode mode) ready (set_mode-SameSides mode m) refl refl
step-Moves (forces_sync sync) m ready =
    SameSides-Moves m _ (forces_sync sync) ready (set_forced_sync-SameSides sync m) refl refl
step-Moves (detects cam detected) m ready =
    SameSides-Moves m _ (detects cam detected) ready (set_motion_detected-SameSides cam detected m)
      refl refl
step-Moves updates m ready =
    SameSides-Moves m _ updates ready (get_mode_update-SameSides m) refl refl

-- Two flows, one behind the other.
flow_chain :
    (f g b0 b1 b2 p q : List (List ℕ))
    → f ++ b1 ≡ b0 ++ p
    → g ++ b2 ≡ b1 ++ q
    → (f ++ g) ++ b2 ≡ b0 ++ (p ++ q)
flow_chain f g b0 b1 b2 p q h k =
    append_assoc f g b2
    ∙ ap (λ l. f ++ l) k
    ∙ sym (append_assoc f b1 q)
    ∙ ap (λ l. l ++ q) h
    ∙ append_assoc b0 p q

pub run-Moves :
    (ops : List Op) (m : Monitor)
    → AllReady m
    → (n : Monitor) × (out : List (Cam × Shot)) × (run ops m ≡ some (n, out))
      × ((c : Cam) → Flow (side c m) (side c n) (of_cam c out) (put_images c ops))
unfolding run
run-Moves [] m ready =
    (m, [], refl, λ c. (ready c, sym (append-nil (images (side c m).pic_buffer))))
run-Moves (op ∷ ops) m ready =
    let (k, first, once, flow) = step-Moves op m ready in
    let (n, later, runs, flow') = run-Moves ops k (λ c. (flow c).0) in
    (
      n,
      first ++ later,
      ap (λ o. o >>= λ r. run ops r.0 >>= λ q. some (q.0, r.1 ++ q.1)) once
          ∙ ap (λ o. o >>= λ q. some (q.0, first ++ q.1)) runs,
      λ c. (
        (flow' c).0,
        ap (λ g. g ++ images (side c n).pic_buffer) (of_cam-append c first later)
            ∙ flow_chain (of_cam c first) (of_cam c later) (images (side c m).pic_buffer)
                (images (side c k).pic_buffer) (images (side c n).pic_buffer) (put_by c op)
                (put_images c ops) (flow c).1 (flow' c).1,
      ),
    )

pub new_monitor-AllReady : AllReady new_monitor
new_monitor-AllReady cam1 h = cc
new_monitor-AllReady cam2 h = cc

-- From a new monitor, no sequence of calls throws an exception; for each camera, the images that
-- `getPicture` has given and behind them those left in the buffer are the ones that were put, in
-- their order.
pub run-put_images :
    (ops : List Op)
    → (n : Monitor) × (out : List (Cam × Shot)) × (run ops new_monitor ≡ some (n, out))
      × ((c : Cam) → of_cam c out ++ images (side c n).pic_buffer ≡ put_images c ops)
run-put_images ops =
    let (n, out, runs, flow) = run-Moves ops new_monitor new_monitor-AllReady in
    (n, out, runs, λ c. (flow c).1 ∙ ap (λ b. b ++ put_images c ops) (none_held c))
  where
    none_held : (c : Cam) → images (side c new_monitor).pic_buffer ≡ []
    none_held cam1 = refl
    none_held cam2 = refl
