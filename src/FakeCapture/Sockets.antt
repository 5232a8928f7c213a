-- ===== src/FakeCapture/Sockets.antt =====
-- C/source/production/fakecapture.c: the socket of the motion notifications. The global variable
-- `motionfd` is overwritten by each `fake_motion_init`.
pub mod Leaking
use edaf55_project.Base.{
  ℕ, zero, suc, List, [], ◌∷◌, Option, none, some, Bool, true, false, not, ℤ, is_nonzero,
  is_negative, if◌then◌else◌,
}
use edaf55_project.Memory.{◌>>=◌}
use edaf55_project.Socket.{Socket}
use edaf55_project.Os.{Os, Call, call, socket, connect, close, malloc, gethostbyname}
use edaf55_project.FakeCapture.{fake_motion_detect, fake_motion_notify}

-- `motionfd`, and the calls so far.
pub record MotionSocket : Type 0 where
  pub motionfd : ℤ
  pub calls : List Call

module _ (os : Os) where
  -- `fake_motion_init()`. Where the name is not found, `motion_server->h_addr` is read through
  -- NULL, which is `none`; a negative descriptor is only reported.
  unfoldable pub fake_motion_init : MotionSocket → Option MotionSocket
  unfolding call
  fake_motion_init w =
      let a = call os socket w.calls in
      let b = call os gethostbyname a.1 in
      if is_nonzero b.0 then some (record { motionfd = a.0; calls = b.1 }) else none

  -- What `capture_open_stream` calls; the result of `malloc` is written through.
  unfoldable pub open_motion : MotionSocket → Option MotionSocket
  unfolding call fake_motion_init
  open_motion w =
      let a = call os malloc w.calls in
      if is_nonzero a.0 then fake_motion_init (record w { calls = a.1 }) else none

  -- `fake_motion_free()`
  unfoldable pub fake_motion_free : MotionSocket → MotionSocket
  unfolding call
  fake_motion_free w = record w { calls = (call os (close w.motionfd) w.calls).1 }

  -- `capture_close_stream(stream)`
  unfoldable pub capture_close_stream : MotionSocket → MotionSocket
  unfolding fake_motion_free
  capture_close_stream w = fake_motion_free w

  module _ (S : Socket) where
    -- `fake_motion_notify()` with its calls, on a new connection in the state `s`.
    unfoldable pub notify_from : S.State → ℤ → MotionSocket → Option (MotionSocket × S.State)
    unfolding call
    notify_from s now w = do
      let c = call os (connect w.motionfd) w.calls
      let done = (call os (close w.motionfd) c.1).1
      t ← fake_motion_notify S (not (is_negative c.0)) s now
      some (record w { calls = if is_negative c.0 then c.1 else done }, t)

    unfoldable pub notify_once : S.State → ℤ → MotionSocket → Option (MotionSocket × S.State)
    unfolding notify_from
    notify_once s now w = fake_motion_init w >>= notify_from s now

    -- `fake_motion_detect(frame_nr)`
    unfoldable pub detect_once : ℕ → S.State → ℤ → MotionSocket → Option (MotionSocket × S.State)
    detect_once frame_nr s now w =
        let notified = notify_once s now w in
        if fake_motion_detect frame_nr then notified else some (w, s)

    -- The frames of a stream, one after the other, each with its number, the state of the new
    -- connection and the time: the variable afterwards.
    unfoldable pub detect_all : List (ℕ × S.State × ℤ) → MotionSocket → Option MotionSocket
    detect_all [] w = some w
    detect_all ((n, s, now) ∷ ns) w = detect_once n s now w >>= λ r. detect_all ns r.0
