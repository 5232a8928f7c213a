-- ===== src/MotionServer/Lifecycle/Main.antt =====
-- C/source/production/motion_server.c: `main`. `install_handlers` is left out: a failure of it is
-- only printed, and the handler is `do_quit`.
pub mod Closing
use edaf55_project.Base.{
  ℕ, List, [], ◌∷◌, Option, some, Bool, true, ℤ, pos, is_nonzero, if◌then◌else◌,
}
use edaf55_project.Memory.{◌>>=◌}
use edaf55_project.Text.{atol}
use edaf55_project.Os.{Os, Call, Thread, call, close, pthread_join, bg_task, motion_task}
use edaf55_project.MotionServer.{GlobalState}
use edaf55_project.MotionServer.Lifecycle.{
  motion_port, init_global_state, create_socket, bind_and_listen, create_bg_threads, serve_clients,
}

-- The port, from `argv`; `atoi` is `atol` where `int` is as wide as `long`.
unfoldable pub port : List (List ℕ) → Option ℤ
unfolding atol
port (program ∷ a ∷ []) = atol a
port _ = some (pos 9091)

module _ (os : Os) (runs : List Call → Bool) (answered : ℤ → List Call → List Call) where
  -- `join_bg_thread(bg_thread, msg)`
  unfoldable pub join_bg_thread : Thread → List Call → List Call
  unfolding call
  join_bg_thread t log = (call os (pthread_join t) log).1

  -- The label `failed_to_listen` and the one beside it.
  unfoldable pub close_sockets : GlobalState → List Call → ℤ × List Call
  unfolding call
  close_sockets state log =
      let a = call os (close state.listenfd) log in (pos 0, (call os (close state.motionfd) a.1).1)

  -- The end of `main`, from `create_bg_threads` on; `none` if the fuel of `serve_clients` runs out.
  unfoldable pub run_server : ℕ → GlobalState → List Call → Option (ℤ × List Call)
  unfolding create_bg_threads serve_clients close_sockets join_bg_thread
  run_server fuel state log =
      let (failed, state', log') = create_bg_threads os state log in
      let served = serve_clients os runs answered fuel state' log' in
      let joined = served >>= λ s.
      some (close_sockets state' (join_bg_thread motion_task (join_bg_thread bg_task s.1))) in
      if is_nonzero failed then some (close_sockets state' log') else joined

  -- `main` behind the choice of the port: the result and the log.
  unfoldable pub start : ℕ → ℤ → GlobalState → Option (ℤ × List Call)
  unfolding create_socket bind_and_listen run_server close_sockets
  start fuel port fresh =
      let (unmade, state, log) = create_socket os (init_global_state fresh) [] in
      let l = bind_and_listen os state port motion_port log in
      let served = run_server fuel (record state { running = true }) l.1 in
      if is_nonzero unmade
      then some (pos 0, log)
      else if is_nonzero l.0
      then some (close_sockets state l.1)
      else served

  -- `main(argc, argv)`; `none` also where `atoi` is undefined.
  unfoldable pub main : ℕ → List (List ℕ) → GlobalState → Option (ℤ × List Call)
  unfolding port start
  main fuel argv fresh = port argv >>= λ p. start fuel p fresh
