-- ===== src/Tests/Client.antt =====
-- The motion client and the fake camera beside the motion server.
use edaf55_project.Base.{
  ◌∷◌, replicate, arith, ◌≡◌, refl, [], ◌++◌, some, none, true, false, ℤ, pos, negsuc, ◌+◌,
}
use edaf55_project.Socket.Pipe.{pipe, pipe-IsLawful}
use edaf55_project.Os.{Os, Call, socket, connect, count}
use edaf55_project.MotionClient.{Polls, motion_get, poll_motion, request_text}
use edaf55_project.MotionClient.Polling.{is_socket, is_close, poll_motion-leak}
use edaf55_project.MotionClient.Answered.{motion_get-serve_client}
use edaf55_project.FakeCapture.{notify_message, fake_motion_notify}
use edaf55_project.MotionServer.Notify.{request, waits, received, motion_task}
use edaf55_project.MotionServer.Notify.Faked.{fake_motion_notify-motion_task}
use edaf55_project.MotionServer.{GlobalState}
use edaf55_project.MotionServer.Respond.{answer, serve_client}

abbrev outcome : ℤ → Call → ℤ
outcome reached socket = pos 3
outcome reached (connect fd) = reached
outcome reached _ = pos 0

abbrev os_with : ℤ → Os
os_with reached = record { result = λ _ c. outcome reached c; errno = λ _. pos 111 }

abbrev polls : Polls
polls = record { running = true; motionfd = negsuc 0; calls = [] }

abbrev state : GlobalState
state = record {
  listenfd = pos 3;
  running = true;
  quit = false;
  pfd = pos 3;
  motionfd = pos 4;
  motioncfd = pos 5;
  mfd = pos 4;
  t_remote = pos 100;
  t_local = pos 120;
}

poll_motion-leak_example :
    (w' : Polls) × (poll_motion
        (os_with (negsuc 0))
        pipe
        (λ _. none)
        3
        (λ _. record { limits = []; out = [] })
        polls
      ≡ some w')
    × (count is_socket w'.calls ≡ 3 + count is_socket polls.calls)
    × (count is_close w'.calls ≡ count is_close polls.calls)
poll_motion-leak_example =
    poll_motion-leak (os_with (negsuc 0)) pipe (λ _. none) (λ _. record { limits = []; out = [] })
      (λ log fd. refl) 3 polls

motion_get-serve_client_example :
    ((w' : Polls) × (motion_get
          (os_with (pos 0))
          pipe
          (λ _. some [])
          polls
          (record { limits = []; out = [] })
        ≡ some (some [], w', record { limits = []; out = request_text })))
    × (request_text ≡ [] ++ request_text)
    × (serve_client pipe
          (record { limits = []; out = [] })
          (some request_text)
          (pos 0)
          (pos 125)
          (pos 0)
          state
        ≡ some (pos 0, true, record { limits = []; out = answer 0 (pos 125) state }))
    × (answer 0 (pos 125) state ≡ [] ++ answer 0 (pos 125) state)
motion_get-serve_client_example =
    motion_get-serve_client (os_with (pos 0)) pipe pipe (λ _. some []) polls
      (record { limits = []; out = [] }) (record { limits = []; out = request_text })
      (record { limits = []; out = [] }) (record { limits = []; out = answer 0 (pos 125) state })
      (pos 0) (pos 125) (pos 0) state pipe-IsLawful pipe-IsLawful refl refl refl

fake_motion_notify-motion_task_example :
    (fake_motion_notify pipe true (record { limits = []; out = [] }) (pos 77)
      ≡ some (record { limits = []; out = notify_message (pos 77) }))
    × (notify_message (pos 77) ≡ [] ++ notify_message (pos 77))
    × (motion_task (request 5 (notify_message (pos 77)) (pos 130) (pos 0) ∷ []) state
        ≡ some (
            waits
              (received (replicate 1024 0) (notify_message (pos 77)))
              (pos 0)
              (record state { motioncfd = pos 5; t_remote = pos 77; t_local = pos 130 })))
fake_motion_notify-motion_task_example =
    fake_motion_notify-motion_task pipe (record { limits = []; out = [] })
      (record { limits = []; out = notify_message (pos 77) }) 5 (pos 77) (pos 130) state
      pipe-IsLawful (omega arith) refl
