-- ===== src/MotionServer/Respond/Serving.antt =====
-- What `serve_client` puts on the connection, and when it closes it.
use edaf55_project.Base.{
  ℕ, ◌<◌, ◌≡◌, ap, List, ◌++◌, length, length-append, take-length, some, ℤ, pos, arith, true, codes,
}
use edaf55_project.Socket.{Socket, IsLawful}
use edaf55_project.ServerCommon.{write_string}
use edaf55_project.ServerCommon.Delivery.{write_n_whole}
use edaf55_project.Text.Prefix.{AllNonzero}
use edaf55_project.Text.Print.{AllNonzero-append, format_unsigned-AllNonzero, strlen_nonzero}
use edaf55_project.MotionServer.{GlobalState}
use edaf55_project.MotionServer.Request.{parse_http_request}
use edaf55_project.MotionServer.Respond.{answer, filled, serve_client, closed}
use edaf55_project.MotionServer.Respond.Reading.{
  IsFront, ok, not_found, not_implemented, framed, length-framed, length_front_le, response-framed,
}
use edaf55_project.MotionServer.Respond.Times.{answer-cases}

front-AllNonzero : {front : List ℕ} → IsFront front → AllNonzero front × (0 < length front)
front-AllNonzero ok = omega arith
front-AllNonzero not_found = omega arith
front-AllNonzero not_implemented = omega arith

framed-AllNonzero : (msg : List ℕ) → AllNonzero msg → AllNonzero (framed msg)
unfolding framed
framed-AllNonzero msg nz =
    AllNonzero-append _ _ (format_unsigned-AllNonzero (length msg))
      (AllNonzero-append (codes "\nContent-Type: text/plain\n\n") msg (omega arith) nz)

-- A text that `write_string` writes in full, and that is short.
pub record IsSendable (s : List ℕ) : Type 0 where
  pub nonzero : AllNonzero s
  pub some_bytes : 0 < length s
  pub few : length s < 1000

answer-IsSendable : (hres : ℕ) (now : ℤ) (state : GlobalState) → IsSendable (answer hres now state)
answer-IsSendable hres now state = answer-cases hres now state IsSendable λ front msg f nz short.
    rw (response-framed msg f nz short) (record {
      nonzero =
          AllNonzero-append front (framed msg) (front-AllNonzero f).0 (framed-AllNonzero msg nz);
      some_bytes = omega (arith, front-AllNonzero f, length-append front (framed msg));
      few = omega (arith, length-append front (framed msg), length-framed msg, length_front_le f);
    })

module _ (S : Socket) (L : IsLawful S) where
  pub write_string_whole :
      (text : List ℕ) (s t : S.State)
      → IsSendable text
      → S.send s text ≡ (pos (length text), t)
      → (write_string S s text ≡ some (pos (length text), t)) × (S.wire t ≡ S.wire s ++ text)
  unfolding write_string
  write_string_whole text s t v q =
      let whole = take-length text in
      let (runs, sent) =
        write_n_whole S L text (length text) (omega arith) (omega arith) s t v.some_bytes
          (rw whole q) in
      (rw (strlen_nonzero text v.nonzero) runs, rw whole at sent)

  -- On a lawful socket, if the request is read and the first `send` takes all it is offered, then
  -- exactly the answer to the parsed request goes out, the connection is closed, and the result is
  -- that of `close`.
  pub serve_client_sent :
      (d : List ℕ) (errno now close_result : ℤ) (state : GlobalState) (s t : S.State)
      → (let text = answer (parse_http_request (filled d)) now state in
          S.send s text ≡ (pos (length text), t))
      → (serve_client S s (some d) errno now close_result state ≡ some (close_result, true, t))
        × (S.wire t ≡ S.wire s ++ answer (parse_http_request (filled d)) now state)
  unfolding serve_client
  serve_client_sent d errno now close_result state s t q =
      let (runs, sent) =
        write_string_whole _ s t (answer-IsSendable (parse_http_request (filled d)) now state) q in
      (ap (closed S close_result) runs, sent)
