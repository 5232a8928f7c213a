-- ===== src/Server/Lifecycle/Main.antt =====
-- C/source/production/server.c: `main`. The log holds the calls of the thread that runs `main`.
pub mod Listening
use edaf55_project.Base.{
  ℕ, List, [], ◌∷◌, Option, none, some, Bool, true, false, ℤ, pos, is_nonzero, if◌then◌else◌,
}
use edaf55_project.Memory.{◌>>=◌}
use edaf55_project.Text.{atol}
use edaf55_project.Os.{
  Os, Call, Thread, call, close, pthread_join, bg_task, main_task, update_mode_task,
}
use edaf55_project.Server.{GlobalState}
use edaf55_project.Server.Lifecycle.{
  init_global_state, create_socket, bind_and_listen, create_threads,
}

-- The two ports, from `argv`; `atoi` is `atol` where `int` is as wide as `long`.
unfoldable pub ports : List (List ℕ) → Option (ℤ × ℤ)
unfolding atol
ports (program ∷ a ∷ []) = atol a >>= λ port1. some (port1, pos 9998)
ports (program ∷ a ∷ b ∷ []) = atol a >>= λ port1. atol b >>= λ port2. some (port1, port2)
ports _ = some (pos 9999, pos 9998)

module _ (os : Os) where
  -- `join_bg_thread(bg_thread, msg)`
  unfoldable pub join_bg_thread : Thread → List Call → List Call
  unfolding call
  join_bg_thread t log = (call os (pthread_join t) log).1

  -- The label `failed_to_listen` and the ones beside it: the result of `main`, the state and the
  -- log.
  unfoldable pub close_listenfd : GlobalState → List Call → ℤ × GlobalState × List Call
  unfolding call
  close_listenfd state log = (pos 0, state, (call os (close state.listenfd) log).1)

  -- The end of `main`, from `create_threads` on.
  unfoldable pub run_threads : GlobalState → List Call → ℤ × GlobalState × List Call
  unfolding create_threads close_listenfd join_bg_thread
  run_threads state log =
      let (failed, state', log') = create_threads os state log in
      let joined =
        join_bg_thread update_mode_task (join_bg_thread main_task (join_bg_thread bg_task log')) in
      if is_nonzero failed then close_listenfd state' log' else close_listenfd state' joined

  -- `main` behind the choice of the ports.
  unfoldable pub start : ℤ → ℤ → GlobalState → ℤ × GlobalState × List Call
  unfolding create_socket bind_and_listen run_threads close_listenfd
  start port1 port2 fresh =
      let (unmade, state, log) = create_socket os (init_global_state fresh) [] in
      let l = bind_and_listen os state.listenfd port1 log in
      let m = bind_and_listen os state.modefd port2 l.1 in
      if is_nonzero unmade
      then (pos 0, state, log)
      else if is_nonzero l.0
      then close_listenfd state l.1
      else if is_nonzero m.0
      then close_listenfd state m.1
      else run_threads (record state { running = true }) m.1

  -- `main(argc, argv)`, with the uninitialised state; `none` where `atoi` is undefined.
  unfoldable pub main : GlobalState → List (List ℕ) → Option (ℤ × GlobalState × List Call)
  unfolding ports start
  main fresh argv = ports argv >>= λ p. some (start p.0 p.1 fresh)
