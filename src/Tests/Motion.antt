-- ===== src/Tests/Motion.antt =====
-- The motion server on the requests that the other programs send.
use edaf55_project.Base.{◌≡◌, refl, ◌↔◌, [], ◌++◌, some, true, false, pos, ◌-ℤ◌, arith, codes, drop}
use edaf55_project.Text.{strncmp, format_long, format_unsigned, digits, snprintf, strlen}
use edaf55_project.Socket.Pipe.{pipe, pipe-IsLawful}
use edaf55_project.MotionServer.{GlobalState}
use edaf55_project.MotionServer.Request.{parse_http_request}
use edaf55_project.MotionServer.Request.Accepts.{HasMethod, HasPath, parse_http_request_iff}
use edaf55_project.MotionServer.Respond.{answer, filled, serve_client}
use edaf55_project.MotionServer.Respond.Reading.{body}
use edaf55_project.MotionServer.Respond.Times.{read_times, read_times-answer}
use edaf55_project.MotionServer.Respond.Serving.{serve_client_sent}

abbrev pub state : GlobalState
state = record {
  listenfd = pos 3;
  running = true;
  quit = false;
  pfd = pos 3;
  motionfd = pos 4;
  motioncfd = pos 5;
  mfd = pos 4;
  t_remote = pos 100;
  t_local = pos 120;
}

poll_request : parse_http_request (filled (codes "GET /motion.txt \n")) ≡ 0
unfolding parse_http_request strncmp
poll_request = refl

other_path : parse_http_request (filled (codes "GET /index \n")) ≡ 404
unfolding parse_http_request strncmp
other_path = refl

post_request : parse_http_request (filled (codes "POST / \n")) ≡ 501
unfolding parse_http_request strncmp
post_request = refl

answer_text :
    answer 0 (pos 125) state
    ≡ codes "HTTP/1.0 200 OK\nContent-Length:9\nContent-Type: text/plain\n\n5:120:100"
unfolding answer snprintf strlen format_long format_unsigned digits
answer_text = refl

-- Where the text of an answer with a length of two digits begins: its first four bytes stand before
-- index 64.
text_place :
    drop 64 (answer 0 (pos 1005) (record state { t_local = pos 1000; t_remote = pos 999 }))
    ≡ codes "00:999"
unfolding answer snprintf strlen format_long format_unsigned digits
text_place = refl

parse_http_request_iff_example :
    let b = codes "GET / " in
    ((parse_http_request b ≡ 0) ↔ (HasMethod b × HasPath b))
    × ((parse_http_request b ≡ 404) ↔ (HasMethod b × ¬ HasPath b))
    × ((parse_http_request b ≡ 501) ↔ (¬ HasMethod b))
parse_http_request_iff_example = parse_http_request_iff (codes "GET / ")

read_times-answer_example :
    read_times (body (answer 0 (pos 125) state))
    ≡ (some (pos 125 -ℤ pos 120), some (pos 120), some (pos 100))
read_times-answer_example =
    read_times-answer (pos 125) state (omega arith) (omega arith) (omega arith)

serve_client_sent_example :
    let text = answer (parse_http_request (filled (codes "GET / \n"))) (pos 125) state in
    (serve_client pipe
        (record { limits = []; out = [] })
        (some (codes "GET / \n"))
        (pos 5)
        (pos 125)
        (pos 0)
        state
      ≡ some (pos 0, true, record { limits = []; out = text }))
    × (text ≡ [] ++ text)
serve_client_sent_example =
    serve_client_sent pipe pipe-IsLawful (codes "GET / \n") (pos 5) (pos 125) (pos 0) state
      (record { limits = []; out = [] })
      (record {
        limits = [];
        out = answer (parse_http_request (filled (codes "GET / \n"))) (pos 125) state;
      })
      refl
