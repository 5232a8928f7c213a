-- ===== src/MotionServer/Respond.antt =====
-- C/source/production/motion_server.c: `serve_client`, which answers one request of a client.
pub mod Reading
pub mod Times
pub mod Serving
use edaf55_project.Base.{
  ℕ, ◌-◌, List, ◌++◌, Bool, true, false, Option, none, some, codes, length, replicate, ℤ, ◌-ℤ◌,
  ◌==◌, if◌then◌else◌,
}
use edaf55_project.Text.{snprintf, strlen, format_unsigned, format_long}
use edaf55_project.Socket.{Socket}
use edaf55_project.ServerCommon.{write_string}
use edaf55_project.MotionServer.{GlobalState}
use edaf55_project.MotionServer.Request.{parse_http_request}

-- The two sizes of `snprintf`: `msg[100]` and `sendBuff[BUFSIZE]`.
abbrev pub msg_size : ℕ
msg_size = 100

abbrev pub bufsize : ℕ
bufsize = 1000

-- The text "a:l:r" at the time `now`. The difference is the exact one: where `long` has 32 bits, C
-- leaves an overflow undefined, and that is not modelled.
unfoldable pub times_text : ℤ → GlobalState → List ℕ
times_text now state =
    let tdiff = now -ℤ state.t_local in
    snprintf msg_size (
      format_long tdiff
      ++ (codes ":" ++ (format_long state.t_local ++ (codes ":" ++ format_long state.t_remote))))

-- A response from its status line and length header, its text, and the text's length.
unfoldable pub response : List ℕ → List ℕ → List ℕ
response front msg =
    snprintf bufsize
      (front ++ (format_unsigned (strlen msg) ++ (codes "\nContent-Type: text/plain\n\n" ++ msg)))

-- What `serve_client` puts into `sendBuff` for the result of the parser.
unfoldable pub answer : ℕ → ℤ → GlobalState → List ℕ
unfolding response times_text
answer hres now state =
    if hres == 0
    then response (codes "HTTP/1.0 200 OK\nContent-Length:") (times_text now state)
    else if hres == 404
    then response (codes "HTTP/1.0 404 Not Found\nContent-Length: ") (codes "404: File not found")
    else response (codes "HTTP/1.0 501 Not Implemented\nContent-Length: ")
        (codes "501: Not implemented")

-- The 1024 zero bytes of `buf` behind a `read` of `d`.
abbrev pub filled : List ℕ → List ℕ
filled d = d ++ replicate (1024 - length d) 0

module _ (S : Socket) where
  -- What a served request ends with: the result, whether `connfd` was closed, and the connection.
  abbrev pub Served : Type 0
  Served = ℤ × Bool × S.State

  abbrev pub closed : ℤ → Option (ℤ × S.State) → Option Served
  closed result none = none
  closed result (some (written, t)) = some (result, true, t)

  -- `serve_client(client)` on the connection `s`. `request` is what `read` gives, the bytes or an
  -- error, whose `errno` is the result; `now` is what `time(0)` gives and `close_result` what
  -- `close` gives. `none` means that the fuel of `write_n` ran out.
  unfoldable pub serve_client : S.State → Option (List ℕ) → ℤ → ℤ → ℤ → GlobalState → Option Served
  unfolding answer
  serve_client s none errno now close_result state = some (errno, false, s)
  serve_client s (some d) errno now close_result state =
      closed close_result (write_string S s (answer (parse_http_request (filled d)) now state))
