-- ===== src/Tests/Motions.antt =====
-- The client and the motion server: a request five seconds after a notification.
use edaf55_project.Base.{ℕ, ◌≡◌, refl, List, ◌++◌, some, pos, codes, replicate}
use edaf55_project.MotionServer.Request.{parse_http_request}
use edaf55_project.MotionServer.{GlobalState}
use edaf55_project.MotionServer.Respond.{answer, filled}
use edaf55_project.MotionDataReceiver.{get_times, parse_int}
use edaf55_project.Tests.Motion.{state}

-- The camera said 987 when the server's clock stood at 1000.
abbrev moved : GlobalState
moved = record state { t_local = pos 1000; t_remote = pos 987 }

abbrev answered_moved : List ℕ
answered_moved = answer (parse_http_request (filled (codes "GET / "))) (pos 1005) moved

-- What the buffer holds after the round: the client takes 9 for the server's time.
times_taken :
    get_times (
      codes "HTTP/1.0 200 OK\nContent-Length:10\nContent-Type: text/plain\n\n5:1000:9"
      ++ replicate 32 0)
    ≡ some (pos 0, pos 9, pos 0)
unfolding get_times parse_int
times_taken = refl
