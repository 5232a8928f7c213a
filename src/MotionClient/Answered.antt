-- ===== src/MotionClient/Answered.antt =====
-- C/source/production/motion_client.c and motion_server.c together: the client's request and the
-- server's answer.
use edaf55_project.Base.{
  ℕ, List, ◌∷◌, ◌++◌, length, Option, some, true, false, ℤ, pos, ◌≡◌, refl, is_negative, if-cases,
  if-absurd, arith,
}
use edaf55_project.Text.{snprintf, strncmp}
use edaf55_project.Socket.{Socket, IsLawful}
use edaf55_project.ServerCommon.{write_string}
use edaf55_project.Os.{Os, call, connect}
use edaf55_project.MotionClient.{Polls, motion_get, request_text, socket_init, socket_close}
use edaf55_project.MotionServer.{GlobalState}
use edaf55_project.MotionServer.Request.{parse_http_request}
use edaf55_project.MotionServer.Respond.Serving.{IsSendable, write_string_whole, serve_client_sent}
use edaf55_project.MotionServer.Respond.{answer, filled, serve_client}

parse_http_request-request_text : parse_http_request (filled request_text) ≡ 0
unfolding parse_http_request request_text snprintf strncmp
parse_http_request-request_text = refl

request_text-IsSendable : IsSendable request_text
unfolding request_text snprintf
request_text-IsSendable = record {
  nonzero = omega arith;
  some_bytes = omega arith;
  few = omega arith;
}

motion_get-reply :
    (os : Os) (S : Socket) (reply : S.State → Option (List ℕ)) (w : Polls) (s t : S.State)
    → is_negative (os.result (socket_init os w).calls (connect (socket_init os w).motionfd)) ≡ false
    → write_string S s request_text ≡ some (pos (length request_text), t)
    → (w' : Polls) × (motion_get os S reply w s ≡ some (reply t, w', t))
unfolding motion_get call
motion_get-reply os S reply w s t up sent =
    if-cases P (is_negative (os.result opened.calls (connect opened.motionfd)))
      (λ down. if-absurd _ down up) (λ _. (socket_close os tried, rw sent refl))
  where
    opened : Polls
    opened = socket_init os w

    tried : Polls
    tried = record opened { calls = connect opened.motionfd ∷ opened.calls }

    P : Option (Option (List ℕ) × Polls × S.State) → Type 0
    P o = (w' : Polls) × (o ≡ some (reply t, w', t))

-- On lawful sockets: if `connect` succeeds and the first `send` of each side takes all it is
-- offered, then `motion_get` prints what it reads behind its request, and `serve_client` on that
-- request sends the times and closes the connection.
pub motion_get-serve_client :
    (os : Os) (S R : Socket) (reply : S.State → Option (List ℕ)) (w : Polls) (s t : S.State)
    (r u : R.State) (errno now close_result : ℤ) (state : GlobalState)
    → IsLawful S
    → IsLawful R
    → is_negative (os.result (socket_init os w).calls (connect (socket_init os w).motionfd)) ≡ false
    → S.send s request_text ≡ (pos (length request_text), t)
    → R.send r (answer 0 now state) ≡ (pos (length (answer 0 now state)), u)
    → ((w' : Polls) × (motion_get os S reply w s ≡ some (reply t, w', t)))
      × (S.wire t ≡ S.wire s ++ request_text)
      × (serve_client R r (some request_text) errno now close_result state
          ≡ some (close_result, true, u))
      × (R.wire u ≡ R.wire r ++ answer 0 now state)
motion_get-serve_client os S R reply w s t r u errno now close_result state L K up asks answers =
    let (written, wired) = write_string_whole S L request_text s t request_text-IsSendable asks in
    let parsed = parse_http_request-request_text in
    let (served, answered) =
      serve_client_sent R K request_text errno now close_result state r u (rw parsed answers) in
    (motion_get-reply os S reply w s t up written, wired, served, rw parsed at answered)
