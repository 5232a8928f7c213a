-- ===== src/Server/Lifecycle/Accept.antt =====
-- C/source/production/server.c: the accept loop of the main thread, `try_accept` and
-- `serve_clients`. What a client's threads do to the monitor until they are joined is the
-- argument `ran`. The `struct client` is allocated here, and its `isConnected` belongs to the threads
-- (`begin` in Tasks.antt); what its freeing does to threads that are not joined is left out.
pub mod Ending
use edaf55_project.Base.{
  ℕ, zero, suc, List, [], ◌∷◌, Option, none, some, Bool, true, false, not, ◌&&◌, ℤ, pos, negsuc,
  is_nonzero, is_negative, if◌then◌else◌,
}
use edaf55_project.Memory.{◌>>=◌}
use edaf55_project.Os.{
  Os, Call, call, any_fails, accept, poll, malloc, pthread_create, pthread_join, take_picture_task,
  send_picture_task, update_mode_task,
}
use edaf55_project.CameraMonitor.{CameraMonitor, init}
use edaf55_project.Server.{GlobalState}
use edaf55_project.Server.Lifecycle.{
  World, err_open_stream, is_running, server_quit, try_open_camera, close_camera,
}

-- `client_init(client)`
unfoldable pub client_init : CameraMonitor → CameraMonitor
client_init m = record m { cam = false; connfd = negsuc 0 }

-- A round of `serve_clients` goes on with another one, or ends the function; both with the
-- result so far.
pub data Round : Type 0 where
  again : ℤ → World → Round
  returned : ℤ → World → Round

module _ (os : Os) (ran : CameraMonitor → CameraMonitor) where
  -- The part of `try_accept` behind the two `accept`: the threads are created and joined.
  unfoldable pub run_client : World → ℤ × World
  unfolding any_fails
  run_client w =
      let created =
        any_fails os
          (pthread_create take_picture_task
            ∷ pthread_create send_picture_task
            ∷ pthread_create update_mode_task
            ∷ [])
          w.calls in
      let joined =
        any_fails os
          (pthread_join take_picture_task
            ∷ pthread_join send_picture_task
            ∷ pthread_join update_mode_task
            ∷ [])
          created.1 in
      let over = record w { monitor = ran w.monitor } in
      if created.0
      then (os.errno created.1, record over { calls = created.1 })
      else if joined.0
      then (os.errno joined.1, record over { calls = joined.1 })
      else (pos 0, record over { calls = joined.1 })

  -- `try_accept(state, client)`, with the camera open.
  unfoldable pub accept_client : World → ℤ × World
  unfolding call run_client
  accept_client w =
      let a = call os (accept w.state.listenfd) w.calls in
      let b = call os (accept w.state.modefd) a.1 in
      let m = record (w.monitor) { cam = w.state.cam; connfd = a.0; connmodefd = b.0 } in
      let w' = record w { monitor = m; calls = b.1 } in
      if is_negative a.0 then (os.errno b.1, w') else run_client w'

  -- `try_accept(state, client)`
  unfoldable pub try_accept : World → ℤ × World
  unfolding accept_client
  try_accept w =
      let opened = try_open_camera os w in
      if w.state.cam
      then accept_client w
      else if is_nonzero opened.0
      then (pos 1, opened.1)
      else accept_client opened.1

  -- The loop around `poll`: what the last call gives. The first argument is fuel.
  pub wait_client : ℕ → World → Option (ℤ × World)
  unfolding call is_running
  wait_client zero w = none
  wait_client (suc patience) w =
      let p = call os (poll w.state.pfd) w.calls in
      let w' = record w { calls = p.1 } in
      let rest = wait_client patience w' in
      if not (is_nonzero p.0) && is_running w.state then rest else some (p.0, w')

  -- What a round does with the result of `poll`.
  unfoldable pub polled : ℤ → ℤ × World → Round
  unfolding try_accept is_running server_quit
  polled result (ret, w) =
      let a = try_accept w in
      if is_negative ret
      then again (os.errno w.calls) (server_quit w)
      else if is_running w.state
      then if is_nonzero a.0 then again (os.errno a.1.calls) (server_quit a.1) else again result a.1
      else again result w

  -- A round of `serve_clients`; `none` if the fuel for the waiting runs out.
  unfoldable pub serve_round : ℕ → ℤ → World → Option Round
  unfolding call wait_client polled
  serve_round patience result w =
      let c = call os malloc w.calls in
      let w' = record w { monitor = client_init w.monitor; calls = c.1 } in
      let go_on = wait_client patience w' >>= λ p. some (polled result p) in
      if is_nonzero c.0
      then go_on
      else some (returned (os.errno c.1) (close_camera os (record w { calls = c.1 })))

  abbrev pub follow : (ℤ → World → Option (ℤ × World)) → Option Round → Option (ℤ × World)
  follow next none = none
  follow next (some (again result w)) = next result w
  follow next (some (returned result w)) = some (result, w)

  -- The rounds of `serve_clients`: its result. The first argument is fuel; `none` means that it,
  -- or the fuel for the waiting, ran out.
  unfoldable pub serve_loop : ℕ → ℕ → ℤ → World → Option (ℤ × World)
  serve_loop zero patience result w = none
  serve_loop (suc fuel) patience result w =
      follow (serve_loop fuel patience) (serve_round patience result w)

  -- `serve_clients(state)`
  unfoldable pub serve_clients : ℕ → ℕ → World → Option (ℤ × World)
  serve_clients fuel patience w =
      serve_loop fuel patience (pos 0)
        (record w { state = record (w.state) { pfd = w.state.listenfd }; monitor = init w.monitor })
