-- ===== src/Tests/Capture.antt =====
-- The fake camera's socket, and the first server, on small inputs.
use edaf55_project.Base.{
  ℕ, ◌+◌, ◌≤◌, ◌≡◌, refl, List, [], ◌∷◌, length, some, true, false, ℤ, pos, arith,
}
use edaf55_project.Os.{Os, Call, socket, close, gethostbyname, malloc}
use edaf55_project.Socket.Pipe.{Pipe, pipe, pipe-IsLawful}
use edaf55_project.FakeCapture.{fake_motion_detect}
use edaf55_project.FakeCapture.Sockets.{MotionSocket, open_motion, capture_close_stream, detect_all}
use edaf55_project.FakeCapture.Sockets.Leaking.{Connects, is_open, capture_close_stream-leak}

-- Each socket gets a number that no one had before.
abbrev given : List Call → Call → ℤ
given log socket = pos (3 + length log)
given log malloc = pos 1
given log gethostbyname = pos 1
given log _ = pos 0

abbrev counting : Os
counting = record { result = given; errno = λ log. pos 0 }

unused : (k : ℕ) (log : List Call) → length log ≤ k → is_open counting (pos (3 + k)) log ≡ false
unused k [] h = refl
unused k (socket ∷ log) h = ground (arith, unused k log (omega arith))
unused k (close (pos f) ∷ log) h = ground (arith, unused k log (omega arith))
unused k (close f ∷ log) h = unused k log (omega arith)
unused k (_ ∷ log) h = unused k log (omega arith)

counting-Connects : Connects counting
counting-Connects = record {
  fresh = λ log. unused (length log) log (omega arith);
  room = λ log. refl;
  found = λ log. refl;
  reached = λ log fd. refl;
}

abbrev idle : MotionSocket
idle = record { motionfd = pos 0; calls = [] }

-- Frames 89 and 90; the second one is notified.
abbrev sights : List (ℕ × Pipe × ℤ)
sights =
    (89, record { limits = []; out = [] }, pos 7)
    ∷ (90, record { limits = []; out = [] }, pos 8)
    ∷ []

capture_close_stream-leak_example :
    (opened : MotionSocket) × (seen : MotionSocket) × (open_motion counting idle ≡ some opened)
    × (detect_all counting pipe sights opened ≡ some seen)
    × (is_open counting opened.motionfd (capture_close_stream counting seen).calls ≡ true)
    × ((capture_close_stream counting seen).calls ≡ close seen.motionfd ∷ seen.calls)
    × (is_open counting seen.motionfd seen.calls ≡ false)
capture_close_stream-leak_example =
    capture_close_stream-leak counting pipe counting-Connects pipe-IsLawful sights idle
      (unfold fake_motion_detect in refl)
