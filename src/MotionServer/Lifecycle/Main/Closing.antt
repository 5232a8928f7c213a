-- ===== src/MotionServer/Lifecycle/Main/Closing.antt =====
-- C/source/production/motion_server.c, `main`: it closes what it has opened.
use edaf55_project.Base.{
  ℕ, List, [], ◌∷◌, Option, none, some, Bool, true, false, ℤ, pos, is_nonzero, ◌≡◌, refl, ap₂,
  if-cases, if-absurd,
}
use mathlib.Core.Path.{subst}
use edaf55_project.Memory.{◌>>=◌}
use edaf55_project.Os.{Os, Call, call, close, pthread_create, bg_task, ui_task, motion_task}
use edaf55_project.MotionServer.{GlobalState}
use edaf55_project.MotionServer.Lifecycle.{
  motion_port, init_global_state, create_socket, bind_and_listen, create_bg_threads,
}
use edaf55_project.MotionServer.Lifecycle.Main.{start, run_server, close_sockets, join_bg_thread}

module _ (listenfd motionfd : ℤ) where
  -- If the function returns, then with 0, and its last calls close the two descriptors.
  abbrev Closes : Option (ℤ × List Call) → Type 0
  Closes none = Unit
  Closes (some (result, log)) =
      (result ≡ pos 0) × (before : List Call) × (log ≡ close motionfd ∷ close listenfd ∷ before)

  -- The state still has the two descriptors.
  abbrev Keeps : ℤ × GlobalState × List Call → Type 0
  Keeps r = (r.1.listenfd ≡ listenfd) × (r.1.motionfd ≡ motionfd)

create_bg_threads-Keeps :
    (os : Os) (state : GlobalState) (log : List Call)
    → Keeps state.listenfd state.motionfd (create_bg_threads os state log)
unfolding create_bg_threads call
create_bg_threads-Keeps os state log =
    if-cases P (is_nonzero (os.result log a)) (λ _. (refl, refl))
      (λ _.
        if-cases P (is_nonzero (os.result (a ∷ log) b)) (λ _. (refl, refl))
          (λ _.
            if-cases P (is_nonzero (os.result (b ∷ a ∷ log) (pthread_create motion_task)))
              (λ _. (refl, refl)) (λ _. (refl, refl))))
  where
    a : Call
    a = pthread_create bg_task

    b : Call
    b = pthread_create ui_task

    P : ℤ × GlobalState × List Call → Type 0
    P = Keeps state.listenfd state.motionfd

module _ (os : Os) (runs : List Call → Bool) (answered : ℤ → List Call → List Call) where
  close_sockets-Closes :
      (l m : ℤ) (state : GlobalState) (log : List Call)
      → state.listenfd ≡ l
      → state.motionfd ≡ m
      → Closes l m (some (close_sockets os runs answered state log))
  unfolding close_sockets call
  close_sockets-Closes l m state log p q = (refl, log, ap₂ (λ x y. close y ∷ close x ∷ log) p q)

  joined-Closes :
      (l m : ℤ) (state : GlobalState) (served : Option (ℤ × List Call))
      → state.listenfd ≡ l
      → state.motionfd ≡ m
      → Closes l m (
          served >>= λ s. some (
            close_sockets os runs answered state (
              join_bg_thread os runs answered motion_task
                (join_bg_thread os runs answered bg_task s.1))))
  joined-Closes l m state none p q = record {}
  joined-Closes l m state (some s) p q = close_sockets-Closes l m state _ p q

  run_server-Closes :
      (fuel : ℕ) (state : GlobalState) (log : List Call)
      → Closes state.listenfd state.motionfd (run_server os runs answered fuel state log)
  unfolding run_server
  run_server-Closes fuel state log =
      let t = create_bg_threads os state log in
      let (p, q) = create_bg_threads-Keeps os state log in
      if-cases (Closes state.listenfd state.motionfd) (is_nonzero t.0)
        (λ _. close_sockets-Closes state.listenfd state.motionfd t.1 t.2 p q)
        (λ _. joined-Closes state.listenfd state.motionfd t.1 _ p q)

  start-Closes :
      (fuel : ℕ) (port : ℤ) (fresh : GlobalState)
      → is_nonzero (create_socket os (init_global_state fresh) []).0 ≡ false
      → Closes
          (create_socket os (init_global_state fresh) []).1.listenfd
          (create_socket os (init_global_state fresh) []).1.motionfd
          (start os runs answered fuel port fresh)
  unfolding start
  start-Closes fuel port fresh made =
      let s = create_socket os (init_global_state fresh) [] in
      let l = bind_and_listen os s.1 port motion_port s.2 in
      if-cases (Closes s.1.listenfd s.1.motionfd) (is_nonzero s.0) (λ bad. if-absurd _ bad made)
        (λ _.
          if-cases (Closes s.1.listenfd s.1.motionfd) (is_nonzero l.0)
            (λ _. close_sockets-Closes s.1.listenfd s.1.motionfd s.1 l.1 refl refl)
            (λ _. run_server-Closes fuel (record (s.1) { running = true }) l.1))

-- If `create_socket` succeeds and `main` ends, then its result is 0 and its last two calls close the
-- two sockets, whatever fails behind `create_socket`.
pub start-close_sockets :
    (os : Os) (runs : List Call → Bool) (answered : ℤ → List Call → List Call) (fuel : ℕ) (port : ℤ)
    (fresh : GlobalState) (result : ℤ) (log : List Call)
    → is_nonzero (create_socket os (init_global_state fresh) []).0 ≡ false
    → start os runs answered fuel port fresh ≡ some (result, log)
    → (result ≡ pos 0)
      × (before : List Call) × (log
          ≡ close (create_socket os (init_global_state fresh) []).1.motionfd
            ∷ close (create_socket os (init_global_state fresh) []).1.listenfd
            ∷ before)
start-close_sockets os runs answered fuel port fresh result log made e =
    subst
      (Closes (create_socket os (init_global_state fresh) []).1.listenfd
        (create_socket os (init_global_state fresh) []).1.motionfd)
      e (start-Closes os runs answered fuel port fresh made)
