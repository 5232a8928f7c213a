-- ===== src/MotionServer/Notify/Latest.antt =====
-- Which times `motion_task` keeps.
use edaf55_project.Base.{
  ℕ, ◌≡◌, refl, List, [], ◌∷◌, ◌++◌, length, drop, codes, some, false, ℤ, pos, append_assoc, ◌∙◌,
  ap, replicate,
}
use edaf55_project.Text.{is_digit, format_long}
use edaf55_project.Text.Decimal.{IsLong}
use edaf55_project.MotionServer.{GlobalState}
use edaf55_project.MotionServer.Request.{parse_motion_request}
use edaf55_project.MotionServer.Request.Accepts.{notification, parse_motion_request_message}
use edaf55_project.MotionServer.Notify.{
  Arrival, request, try_accept_motion, received, waits, next_round, parsed, motion_round,
  motion_loop, motion_task,
}

-- A notification of the camera: the descriptor that `accept` gives for it, its time stamp, the byte
-- behind it and the rest of the text, and the local time at which it is read.
pub record Note : Type 0 where
  pub fd : ℕ
  pub stamp : ℤ
  pub stop : ℕ
  pub rest : List ℕ
  pub now : ℤ

pub record IsNote (m : Note) : Type 0 where
  pub fits : IsLong m.stamp
  pub ends : is_digit m.stop ≡ false

abbrev pub text_of : Note → List ℕ
text_of m = notification (codes "?Message=" ++ (format_long m.stamp ++ (m.stop ∷ m.rest)))

abbrev pub arrival_of : Note → Arrival
arrival_of m = request m.fd (text_of m) m.now (pos 0)

abbrev pub noted : Note → GlobalState → GlobalState
noted m state = record state { motioncfd = pos m.fd; t_remote = m.stamp; t_local = m.now }

received-text_of :
    (m : Note) (buf : List ℕ)
    → received buf (text_of m)
      ≡ text_of (record m { rest = m.rest ++ drop (length (text_of m)) buf })
received-text_of m buf =
    ap (λ s. notification (codes "?Message=" ++ s))
      (append_assoc (format_long m.stamp) (m.stop ∷ m.rest) (drop (length (text_of m)) buf))

motion_round-arrival_of :
    (m : Note) (buf : List ℕ) (result : ℤ) (state : GlobalState)
    → IsNote m
    → motion_round (arrival_of m) buf result state
      ≡ some (waits (received buf (text_of m)) result (noted m state))
unfolding motion_round
motion_round-arrival_of m buf result state ok =
    let rest = m.rest ++ drop (length (text_of m)) buf in
    let taken = try_accept_motion (pos m.fd) state in
    let heard = parse_motion_request_message m.stamp m.now m.stop rest taken ok.fits ok.ends in
    ap (parsed (received buf (text_of m)) result (pos 0))
      (ap (λ s. parse_motion_request s m.now taken) (received-text_of m buf) ∙ heard)

-- The buffer and the state behind notifications that came one after the other.
abbrev pub buffer_after : List Note → List ℕ → List ℕ
buffer_after [] buf = buf
buffer_after (m ∷ ms) buf = buffer_after ms (received buf (text_of m))

abbrev pub AreNotes : List Note → Type 0
AreNotes [] = Unit
AreNotes (m ∷ ms) = IsNote m × AreNotes ms

abbrev pub arrivals_of : List Note → List Arrival
arrivals_of [] = []
arrivals_of (m ∷ ms) = arrival_of m ∷ arrivals_of ms

-- The state behind the notifications: the times and the descriptor are those of the last one.
abbrev pub latest : List Note → GlobalState → GlobalState
latest [] state = state
latest (m ∷ []) state = noted m state
latest (m ∷ n ∷ ms) state = latest (n ∷ ms) state

latest-noted :
    (m n : Note) (ms : List Note) (state : GlobalState)
    → latest (n ∷ ms) (noted m state) ≡ latest (n ∷ ms) state
latest-noted m n [] state = refl
latest-noted m n (k ∷ ms) state = latest-noted m k ms state

motion_loop-arrivals_of :
    (ms : List Note) (buf : List ℕ) (result : ℤ) (state : GlobalState)
    → AreNotes ms
    → motion_loop (arrivals_of ms) buf result state
      ≡ some (waits (buffer_after ms buf) result (latest ms state))
unfolding motion_loop
motion_loop-arrivals_of [] buf result state _ = refl
motion_loop-arrivals_of (m ∷ []) buf result state (ok, _) =
    ap (next_round (motion_loop [])) (motion_round-arrival_of m buf result state ok)
motion_loop-arrivals_of (m ∷ n ∷ ms) buf result state (ok, oks) =
    ap (next_round (motion_loop (arrivals_of (n ∷ ms))))
      (motion_round-arrival_of m buf result state ok)
    ∙ motion_loop-arrivals_of (n ∷ ms) (received buf (text_of m)) result (noted m state) oks
    ∙ ap (λ s. some (waits (buffer_after (m ∷ n ∷ ms) buf) result s)) (latest-noted m n ms state)

-- Behind any notifications, each with a time stamp that fits a `long` and no digit after it, and
-- with a `close` that succeeds, the thread waits for the next one, and the times are the last
-- notification's, although the buffer is never cleared. Besides them and `mfd`, only `motioncfd`
-- has changed, which is the last notification's descriptor.
pub motion_task-latest :
    (ms : List Note) (state : GlobalState)
    → AreNotes ms
    → motion_task (arrivals_of ms) state
      ≡ some (
          waits
            (buffer_after ms (replicate 1024 0))
            (pos 0)
            (latest ms (record state { mfd = state.motionfd })))
unfolding motion_task
motion_task-latest ms state ok = motion_loop-arrivals_of ms (replicate 1024 0) (pos 0) _ ok

-- Behind a notification with a time stamp that fits a `long` and no digit after it, one that is cut
-- behind `/motion` takes over this time stamp, which is still in the buffer, with its own local
-- time and descriptor.
pub motion_task-stale :
    (m : Note) (fd : ℕ) (now : ℤ) (state : GlobalState)
    → IsNote m
    → motion_task (arrival_of m ∷ request fd (codes "GET /motion") now (pos 0) ∷ []) state
      ≡ some (
          waits (received (replicate 1024 0) (text_of m)) (pos 0) (record state {
            mfd = state.motionfd;
            motioncfd = pos fd;
            t_remote = m.stamp;
            t_local = now;
          }))
unfolding motion_task motion_loop motion_round
motion_task-stale m fd now state ok =
    let zeros = replicate 1024 0 in
    let started = record state { mfd = state.motionfd } in
    let cut = request fd (codes "GET /motion") now (pos 0) in
    ap (next_round (motion_loop (cut ∷ []))) (motion_round-arrival_of m zeros (pos 0) started ok)
    ∙ ap (next_round (motion_loop [])) (
        motion_round-arrival_of (record m { fd = fd; now = now }) zeros (pos 0) (noted m started)
          (record { fits = ok.fits; ends = ok.ends }))
