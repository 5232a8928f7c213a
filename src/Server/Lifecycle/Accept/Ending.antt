-- ===== src/Server/Lifecycle/Accept/Ending.antt =====
-- C/source/production/server.c, `serve_clients`: when it returns, and what it does after
-- `server_quit`.
use edaf55_project.Base.{
  ℕ, zero, suc, List, Option, none, some, Bool, true, false, ℤ, pos, is_nonzero, is_negative, not,
  ◌&&◌, ◌≡◌, refl, if-cases, if-absurd, is_nonzero-pos, arith,
}
use mathlib.Core.Path.{subst}
use edaf55_project.Memory.{◌>>=◌}
use edaf55_project.Os.{Os, Call, Gave, here, there, count, call, accept, poll, malloc}
use edaf55_project.CameraMonitor.{CameraMonitor}
use edaf55_project.Server.Lifecycle.{World, is_running, server_quit, close_camera}
use edaf55_project.Server.Lifecycle.Accept.{
  Round, again, returned, wait_client, polled, serve_round, serve_loop, serve_clients, follow,
}

module _ (K E : World → Type 0) where
  -- `K` holds when a round goes on, and `E` when it ends the function.
  abbrev Goes : Option Round → Type 0
  Goes none = Unit
  Goes (some (again result w)) = K w
  Goes (some (returned result w)) = E w

  abbrev Ends : Option (ℤ × World) → Type 0
  Ends none = Unit
  Ends (some (result, w)) = E w

  follow-Goes :
      (os : Os) (ran : CameraMonitor → CameraMonitor) (next : ℤ → World → Option (ℤ × World))
      → ((result : ℤ) (w : World) → K w → Ends (next result w))
      → (r : Option Round) → Goes r
      → Ends (follow os ran next r)
  follow-Goes os ran next f none _ = record {}
  follow-Goes os ran next f (some (again result w)) k = f result w k
  follow-Goes os ran next f (some (returned result w)) e = e

  -- What every round keeps up holds at the end.
  serve_loop-Goes :
      (os : Os) (ran : CameraMonitor → CameraMonitor) (patience : ℕ)
      → ((result : ℤ) (w : World) → K w → Goes (serve_round os ran patience result w))
      → (fuel : ℕ) (result : ℤ) (w : World) → K w
      → Ends (serve_loop os ran fuel patience result w)
  unfolding serve_loop
  serve_loop-Goes os ran patience kept zero result w k = record {}
  serve_loop-Goes os ran patience kept (suc fuel) result w k =
      follow-Goes os ran (serve_loop os ran fuel patience)
        (serve_loop-Goes os ran patience kept fuel) (serve_round os ran patience result w)
        (kept result w k)

-- The call takes a connection.
unfoldable pub accepts : Call → Bool
accepts (accept fd) = true
accepts _ = false

-- The server has quit, and so many calls of `accept` have been made.
abbrev Quiet : ℕ → World → Type 0
Quiet b w = (w.state.running ≡ false) × (count accepts w.calls ≡ b)

-- The function ends with the camera closed, and because `malloc` gave NULL.
abbrev Closed : Os → World → Type 0
Closed os w = (w.state.cam ≡ false) × Gave os malloc (pos 0) w.calls

module _ (os : Os) (ran : CameraMonitor → CameraMonitor) where
  wait_client-Quiet :
      (b : ℕ) (patience : ℕ) (w : World)
      → Quiet b w
      → Ends (Quiet b) (Quiet b) (wait_client os ran patience w)
  unfolding wait_client call is_running accepts
  wait_client-Quiet b zero w q = record {}
  wait_client-Quiet b (suc patience) w q =
      if-cases (Ends (Quiet b) (Quiet b)) (not (is_nonzero p.0) && w.state.running)
        (λ _. wait_client-Quiet b patience (record w { calls = p.1 }) q) (λ _. q)
    where
      p : ℤ × List Call
      p = call os (poll w.state.pfd) w.calls

  polled-Quiet :
      (b : ℕ) (result ret : ℤ) (w : World)
      → Quiet b w
      → Goes (Quiet b) (Quiet b) (some (polled os ran result (ret, w)))
  unfolding polled server_quit is_running
  polled-Quiet b result ret w q =
      if-cases P (is_negative ret) (λ _. (refl, q.1))
        (λ _. if-cases P w.state.running (λ on. if-absurd _ on q.0) (λ _. q))
    where
      P : Round → Type 0
      P r = Goes (Quiet b) (Quiet b) (some r)

  polled-again :
      (E : World → Type 0) (result : ℤ) (p : ℤ × World)
      → Goes (λ _. Unit) E (some (polled os ran result p))
  unfolding polled
  polled-again E result p = ground arith

  close_camera-Closed : (w : World) → Gave os malloc (pos 0) w.calls → Closed os (close_camera os w)
  unfolding close_camera call
  close_camera-Closed w g =
      if-cases (Closed os) w.state.cam (λ _. (refl, there g)) (λ off. (off, g))

  round_of :
      (K E : World → Type 0) (result : ℤ) (o : Option (ℤ × World))
      → ((p : ℤ × World) → Goes K E (some (polled os ran result p)))
      → Goes K E (o >>= λ p. some (polled os ran result p))
  round_of K E result none f = record {}
  round_of K E result (some p) f = f p

  serve_round-Closed :
      (patience : ℕ) (result : ℤ) (w : World)
      → Goes (λ _. Unit) (Closed os) (serve_round os ran patience result w)
  unfolding serve_round call
  serve_round-Closed patience result w =
      if-cases (Goes (λ _. Unit) (Closed os)) (is_nonzero (os.result w.calls malloc))
        (λ _. round_of (λ _. Unit) (Closed os) result _ (polled-again (Closed os) result))
        (λ null. close_camera-Closed _ (here (is_nonzero-pos _ null)))

  serve_clients-Closed :
      (fuel patience : ℕ) (w : World)
      → Ends (λ _. Unit) (Closed os) (serve_clients os ran fuel patience w)
  unfolding serve_clients
  serve_clients-Closed fuel patience w =
      serve_loop-Goes (λ _. Unit) (Closed os) os ran patience
        (λ result v _. serve_round-Closed patience result v) fuel (pos 0) _ (record {})

  -- Another round comes, with the server still off.
  abbrev GoesOn : ℕ → Option Round → Type 0
  GoesOn b r = (result : ℤ) × (w : World) × (r ≡ some (again result w)) × Quiet b w

-- `serve_clients` returns only behind a `malloc` that gave NULL, and the camera is closed then.
pub serve_clients-malloc :
    (os : Os) (ran : CameraMonitor → CameraMonitor) (fuel patience : ℕ) (w w' : World) (result : ℤ)
    → serve_clients os ran fuel patience w ≡ some (result, w')
    → (w'.state.cam ≡ false) × Gave os malloc (pos 0) w'.calls
serve_clients-malloc os ran fuel patience w w' result e =
    subst (Ends (λ _. Unit) (Closed os)) e (serve_clients-Closed os ran fuel patience w)
