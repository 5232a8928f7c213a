-- ===== src/MotionServer/Lifecycle.antt =====
-- C/source/production/motion_server.c: the start of the server, its accept loop and its end, built
-- without MULTI_CLIENT_THREADS. What goes on in `serve_client` is in Respond.antt; here the
-- argument `answered` stands for the calls that it makes. A thread or the signal handler may clear
-- `running` at any time: `runs log` is what a test of it gives behind the calls `log`.

pub mod Main
pub mod Ending
use edaf55_project.Base.{
  ℕ, zero, suc, List, [], ◌∷◌, Option, none, some, Bool, true, false, not, ◌&&◌, ◌||◌, ℤ, pos,
  negsuc, is_nonzero, is_negative, ◌==◌, if◌then◌else◌,
}
use edaf55_project.Memory.{◌>>=◌}
use edaf55_project.Text.{atol}
use edaf55_project.Os.{
  Os, Call, Thread, call, socket, setsockopt, bind, listen, accept, poll, close, pthread_create,
  pthread_join, pthread_detach, port_of, bg_task, ui_task, motion_task,
}
use edaf55_project.MotionServer.{GlobalState}

abbrev pub motion_port : ℤ
motion_port = pos 9090

-- `init_global_state(state)`; the other fields of the global variable are 0 from the start.
unfoldable pub init_global_state : GlobalState → GlobalState
init_global_state state = record state {
  running = false;
  quit = false;
  t_local = pos 0;
  t_remote = pos 0;
}

-- `do_quit(s)`
unfoldable pub do_quit : GlobalState → GlobalState
do_quit s = record s { quit = true; running = false }

-- What the switch of `ui_task` does with a character: the state, and whether
-- `signal_to_bg_task` is called. The output of 's' is left out.
unfoldable pub pressed : ℕ → GlobalState → GlobalState × Bool
unfolding do_quit
pressed c s = if c == b'q' then (do_quit s, false) else (s, c == b'b')

-- `ui_task(ctxt)` on the characters that `getchar` gives, until they end or the server quits: the
-- state, and how often `signal_to_bg_task` was called.
unfoldable pub ui_loop : GlobalState → List ℕ → GlobalState × ℕ
unfolding pressed
ui_loop s [] = (s, 0)
ui_loop s (c ∷ cs) =
    let p = pressed c s in
    let rest = ui_loop p.0 cs in
    if s.running then (rest.0, if p.1 then suc rest.1 else rest.1) else (s, 0)

module _ (os : Os) where
  -- `create_socket(state)`: the result, the state and the log. On Linux
  -- `set_socket_sigpipe_option` makes no call.
  unfoldable pub create_socket : GlobalState → List Call → ℤ × GlobalState × List Call
  unfolding call
  create_socket state log =
      let a = call os socket log in
      let b = call os socket a.1 in
      let state' = record state { listenfd = a.0; motionfd = b.0 } in
      let c = call os (setsockopt a.0) b.1 in
      let d = call os (setsockopt b.0) c.1 in
      if is_negative a.0 || is_negative b.0
      then (os.errno b.1, state', b.1)
      else if is_nonzero c.0
      then (os.errno c.1, state', c.1)
      else if is_nonzero d.0
      then (os.errno d.1, state', d.1)
      else (pos 0, state', d.1)

  -- `bind_and_listen(state, port, motion_port)`
  unfoldable pub bind_and_listen : GlobalState → ℤ → ℤ → List Call → ℤ × List Call
  unfolding call
  bind_and_listen state port motion_port log =
      let a = call os (bind state.listenfd (port_of port)) log in
      let b = call os (listen state.listenfd 10) a.1 in
      let c = call os (bind state.motionfd (port_of motion_port)) b.1 in
      let d = call os (listen state.motionfd 10) c.1 in
      if is_nonzero a.0
      then (os.errno a.1, a.1)
      else if is_nonzero b.0
      then (os.errno b.1, b.1)
      else if is_nonzero c.0
      then (os.errno c.1, c.1)
      else if is_nonzero d.0
      then (os.errno d.1, d.1)
      else (pos 0, d.1)

  -- `create_bg_threads(state)`. The result of a failed start is `errno`, which `pthread_create`
  -- does not set.
  unfoldable pub create_bg_threads : GlobalState → List Call → ℤ × GlobalState × List Call
  unfolding call
  create_bg_threads state log =
      let a = call os (pthread_create bg_task) log in
      let b = call os (pthread_create ui_task) a.1 in
      let c = call os (pthread_create motion_task) b.1 in
      let d = call os (pthread_detach ui_task) c.1 in
      let stopped = record state { running = false } in
      if is_nonzero a.0
      then (os.errno a.1, state, a.1)
      else if is_nonzero b.0
      then (os.errno b.1, stopped, b.1)
      else if is_nonzero c.0
      then (os.errno c.1, stopped, c.1)
      else (pos 0, state, d.1)

module _ (os : Os) (runs : List Call → Bool) (answered : ℤ → List Call → List Call) where
  -- `try_accept(state)`: the result and the log.
  unfoldable pub try_accept : GlobalState → List Call → ℤ × List Call
  unfolding call
  try_accept state log =
      let a = call os (accept state.listenfd) log in
      if is_negative a.0 then (os.errno a.1, a.1) else (pos 0, answered a.0 a.1)

  -- What a round of `serve_clients` does with the result of `poll`: whether another one comes, the
  -- result and the log.
  unfoldable pub polled : GlobalState → ℤ → ℤ → List Call → Bool × ℤ × List Call
  unfolding try_accept
  polled state result ret log =
      let a = try_accept state log in
      if is_negative ret
      then (false, os.errno log, log)
      else if is_nonzero ret && runs log
      then (true, if is_nonzero a.0 then os.errno a.1 else result, a.1)
      else (true, result, log)

  -- The loops of `serve_clients`, one `poll` in each round: where `poll` gives 0, the outer loop's
  -- test is the inner one's. The first argument is fuel; `none` means that it ran out.
  unfoldable pub serve_loop : ℕ → GlobalState → ℤ → List Call → Option (ℤ × List Call)
  unfolding call polled
  serve_loop zero state result log = none
  serve_loop (suc fuel) state result log =
      let p = call os (poll state.pfd) log in
      let (more, result', log') = polled state result p.0 p.1 in
      let rest = serve_loop fuel state result' log' in
      if runs log then if more then rest else some (result', log') else some (result, log)

  -- `serve_clients(state)`
  unfoldable pub serve_clients : ℕ → GlobalState → List Call → Option (ℤ × List Call)
  unfolding serve_loop
  serve_clients fuel state log = serve_loop fuel (record state { pfd = state.listenfd }) (pos 0) log
