-- ===== src/Tests/Lifecycle.antt =====
-- The servers' start and accept loops, on systems whose calls succeed or fail at a chosen place.
use edaf55_project.Base.{
  ltb, ge→ltb, length, replicate, ◌≡◌, refl, ◌≢◌, ◌⊎◌, [], ◌∷◌, List, some, true, false, ℤ, pos,
  negsuc, arith, codes,
}
use edaf55_project.Os.{
  bind, setsockopt, accept, Os, Call, SetsErrno, made, socket, close, malloc, poll, open_stream,
  camera_close,
}
use edaf55_project.CameraMonitor.{CameraMonitor}
use edaf55_project.Server.{GlobalState}
use edaf55_project.Server.Lifecycle.{World, init_global_state, create_socket}
use edaf55_project.Server.Lifecycle.Main.{start}
use edaf55_project.Server.Lifecycle.Main.Listening.{starts_thread, Listens, start-Listens}
use edaf55_project.Server.BgTask.{
  asleep, done, stays, steps, sleeps, owns, quits, awake, OwnStep, quit_awake,
}
use edaf55_project.MotionServer
use edaf55_project.MotionServer.Lifecycle
use edaf55_project.MotionServer.Lifecycle.Main
use edaf55_project.MotionServer.Lifecycle.Main.Closing.{start-close_sockets}
use edaf55_project.MotionServer.Lifecycle.Ending.{serve_clients-Returns}
use edaf55_project.MotionServer.Notify.{motion_task, request, waits, received}
use edaf55_project.MotionServer.Notify.Latest.{
  Note, arrival_of, arrivals_of, text_of, buffer_after, latest, motion_task-latest,
  motion_task-stale,
}
use edaf55_project.MotionServer.BgTask

-- Every call succeeds; `errno` is EINVAL.
abbrev success : Call → ℤ
success socket = pos 3
success malloc = pos 1
success open_stream = pos 1
success (poll fd) = pos 1
success _ = pos 0

abbrev good : Os
good = record { result = λ _ c. success c; errno = λ _. pos 22 }

good-SetsErrno : SetsErrno good
good-SetsErrno = record { on_failure = λ _ _ _. ground arith; kept = λ _ _ _. ground arith }

abbrev fresh : GlobalState
fresh = record {
  listenfd = pos 0;
  modefd = pos 0;
  running = true;
  quit = true;
  pfd = pos 0;
  motionfd = pos 0;
  cam = true;
}

abbrev monitor : CameraMonitor
monitor = record {
  pic_packet = [];
  mode = pos 0;
  pic_taken = false;
  pic_sent = true;
  pic_take_send = 0;
  connfd = negsuc 0;
  connmodefd = pos 0;
  packet_sz = pos 0;
  cam = false;
}

start-Listens_example :
    Listens good
      (create_socket good (init_global_state fresh) []).1.listenfd
      (pos 9999)
      (start good (pos 9999) (pos 9998) fresh).2
    × Listens good
        (create_socket good (init_global_state fresh) []).1.modefd
        (pos 9998)
        (start good (pos 9999) (pos 9998) fresh).2
unfolding start made starts_thread
start-Listens_example = start-Listens good good-SetsErrno (pos 9999) (pos 9998) fresh refl

-- Only the first allocation succeeds.
abbrev tight_result : List Call → Call → ℤ
tight_result (x ∷ log) malloc = pos 0
tight_result log c = success c

abbrev tight : Os
tight = record { result = tight_result; errno = λ _. pos 12 }

abbrev stopped : World
stopped = record { state = record fresh { running = false }; monitor = monitor; calls = [] }

abbrev stopped_end : World
stopped_end = record {
  state = record fresh { running = false; cam = false };
  monitor = monitor;
  calls = camera_close ∷ malloc ∷ poll (pos 0) ∷ malloc ∷ [];
}

-- A client has been accepted before the stop.
abbrev stopped_later : World
stopped_later = record stopped { calls = accept (pos 3) ∷ [] }

lost_wake_up_example :
    BgTask.BgRuns true BgTask.testing false BgTask.asleep
    × (¬ BgTask.OwnStep false BgTask.asleep BgTask.awake)
    × (false ≡ false)
    × (BgTask.awake ≡ BgTask.awake)
lost_wake_up_example =
    BgTask.lost_wake_up BgTask.testing (λ e. ground arith) false BgTask.awake BgTask.quits

quit_awake_example : (awake ≢ asleep) × ((awake ≡ done) ⊎ OwnStep false awake done)
quit_awake_example = quit_awake awake (steps (steps stays (owns sleeps)) quits)

abbrev state : MotionServer.GlobalState
state = record {
  listenfd = pos 3;
  running = true;
  quit = false;
  pfd = pos 3;
  motionfd = pos 4;
  motioncfd = pos 5;
  mfd = pos 4;
  t_remote = pos 100;
  t_local = pos 120;
}

serve_clients-Returns_example :
    (result : ℤ) × (log : List Call) × (MotionServer.Lifecycle.serve_clients good
        (λ log. ltb (length log) 3)
        (λ fd log. close fd ∷ log)
        4
        state
        []
      ≡ some (result, log))
serve_clients-Returns_example =
    serve_clients-Returns good (λ log. ltb (length log) 3) (λ fd log. close fd ∷ log)
      (λ fd log. omega arith) 3 (λ log few. ge→ltb _ _ few) state []

abbrev note : Note
note = record { fd = 5; stamp = pos 77; stop = 10; rest = []; now = pos 130 }

abbrev older : Note
older = record { fd = 4; stamp = pos 7; stop = 32; rest = codes "HTTP/1.0"; now = pos 60 }

motion_task-latest_example :
    motion_task (arrivals_of (older ∷ note ∷ [])) state
    ≡ some (
        waits
          (buffer_after (older ∷ note ∷ []) (replicate 1024 0))
          (pos 0)
          (latest (older ∷ note ∷ []) state))
motion_task-latest_example = motion_task-latest (older ∷ note ∷ []) state (
  record { fits = omega arith; ends = refl },
  (record { fits = omega arith; ends = refl }, record {}),
)

motion_task-stale_example :
    motion_task (arrival_of note ∷ request 6 (codes "GET /motion") (pos 140) (pos 0) ∷ []) state
    ≡ some (
        waits
          (received (replicate 1024 0) (text_of note))
          (pos 0)
          (record state { motioncfd = pos 6; t_remote = pos 77; t_local = pos 140 }))
motion_task-stale_example =
    motion_task-stale note 6 (pos 140) state (record { fits = omega arith; ends = refl })

-- `bind` fails.
abbrev unbound_result : Call → ℤ
unbound_result (bind fd port) = negsuc 0
unbound_result c = success c

abbrev unbound : Os
unbound = record { result = λ _ c. unbound_result c; errno = λ _. pos 98 }

start-close_sockets_example :
    (◌≡◌ {A = ℤ} (pos 0) (pos 0))
    × (before : List Call) × (close (pos 3)
          ∷ close (pos 3)
          ∷ bind (pos 3) 80
          ∷ setsockopt (pos 3)
          ∷ setsockopt (pos 3)
          ∷ socket
          ∷ socket
          ∷ []
        ≡ close (pos 3) ∷ close (pos 3) ∷ before)
unfolding MotionServer.Lifecycle.Main.start MotionServer.Lifecycle.create_socket
start-close_sockets_example =
    start-close_sockets unbound (λ _. true) (λ _ log. log) 0 (pos 80) state (pos 0) _ refl refl
