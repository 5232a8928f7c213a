-- ===== src/Server/Lifecycle.antt =====
-- C/source/production/server.c: the start of the server, its accept loop and its end. The threads
-- of a client are started and joined here; what they do is in Tasks.antt. A failed step goes to the
-- label that the code names. Printing is left out.
pub mod Accept
pub mod Main
use edaf55_project.Base.{
  ℕ, zero, suc, ◌-◌, ◌%◌, ◌^◌, List, [], ◌∷◌, Option, none, some, Bool, true, false, not, ◌&&◌,
  ◌||◌, ℤ, pos, negsuc, is_nonzero, is_negative, if◌then◌else◌,
}
use edaf55_project.Os.{
  Os, Call, Thread, call, any_fails, socket, setsockopt, bind, listen, accept, poll, close, malloc,
  open_stream, camera_close, pthread_create, pthread_join, port_of, bg_task, main_task,
  take_picture_task, send_picture_task, update_mode_task,
}
use edaf55_project.CameraMonitor.{CameraMonitor, init}
use edaf55_project.Server.{GlobalState}

-- What the main thread works on.
pub record World : Type 0 where
  pub state : GlobalState
  pub monitor : CameraMonitor
  pub calls : List Call

abbrev pub err_open_stream : ℤ
err_open_stream = pos 1

-- `init_global_state(state)`: what it sets of the uninitialised state.
unfoldable pub init_global_state : GlobalState → GlobalState
init_global_state state = record state { running = false; quit = false; cam = false }

unfoldable pub is_running : GlobalState → Bool
is_running state = state.running

unfoldable pub server_quit : World → World
server_quit w = record w { state = record (w.state) { quit = true; running = false } }

module _ (os : Os) where
  -- `try_open_camera(state)`
  unfoldable pub try_open_camera : World → ℤ × World
  unfolding call
  try_open_camera w =
      let c = call os open_stream w.calls in
      let opened = is_nonzero c.0 in
      (
        if opened then pos 0 else err_open_stream,
        record w { state = record (w.state) { cam = opened }; calls = c.1 },
      )

  unfoldable pub close_camera : World → World
  unfolding call
  close_camera w =
      if w.state.cam
      then record w {
        state = record (w.state) { cam = false };
        calls = (call os camera_close w.calls).1;
      }
      else w

  -- `create_socket(state)`: the result, the state and the log. On Linux
  -- `set_socket_sigpipe_option` makes no call.
  unfoldable pub create_socket : GlobalState → List Call → ℤ × GlobalState × List Call
  unfolding call
  create_socket state log =
      let a = call os socket log in
      let b = call os socket a.1 in
      let c = call os socket b.1 in
      let state' = record state { listenfd = a.0; motionfd = b.0; modefd = c.0 } in
      let d = call os (setsockopt a.0) c.1 in
      if is_negative a.0 || (is_negative b.0 || is_negative c.0)
      then (os.errno c.1, state', c.1)
      else if is_nonzero d.0
      then (os.errno d.1, state', d.1)
      else (pos 0, state', d.1)

  -- `bind_and_listen(member, port)`
  unfoldable pub bind_and_listen : ℤ → ℤ → List Call → ℤ × List Call
  unfolding call
  bind_and_listen member port log =
      let b = call os (bind member (port_of port)) log in
      let l = call os (listen member 10) b.1 in
      if is_nonzero b.0
      then (os.errno b.1, b.1)
      else if is_nonzero l.0
      then (os.errno l.1, l.1)
      else (pos 0, l.1)

  -- `create_threads(state)`. The result of a failed start is `errno`, which `pthread_create` does
  -- not set.
  unfoldable pub create_threads : GlobalState → List Call → ℤ × GlobalState × List Call
  unfolding call
  create_threads state log =
      let b = call os (pthread_create bg_task) log in
      let m = call os (pthread_create main_task) b.1 in
      let stopped = record state { running = false } in
      if is_nonzero b.0
      then (os.errno b.1, stopped, b.1)
      else if is_nonzero m.0
      then (os.errno m.1, stopped, m.1)
      else (pos 0, state, m.1)
