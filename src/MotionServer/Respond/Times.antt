-- ===== src/MotionServer/Respond/Times.antt =====
-- What a client reads in the answers of the motion server: their framing, and the three times.
use edaf55_project.Base.{
  ℕ, ◌≤◌, ◌≡◌, refl, ◌∙◌, ap, List, [], ◌∷◌, ◌++◌, append_assoc, codes, length, length-append,
  Option, some, ℤ, pos, negsuc, suc, ◌-ℤ◌, arith, Bool-cases, inl, inr, ◌==◌,
}
use edaf55_project.Text.{strncmp, atol, digits, format_long}
use edaf55_project.Text.Prefix.{AllNonzero}
use edaf55_project.Text.Decimal.{AllDigits, digits-AllDigits, IsLong, atol-format_long}
use edaf55_project.Text.Print.{
  AllNonzero-append, format_long-AllNonzero, length-format_long-le, snprintf_fits,
}
use edaf55_project.MotionServer.{GlobalState}
use edaf55_project.MotionServer.Respond.{times_text, response, answer}
use edaf55_project.MotionServer.Respond.Reading.{
  behind, content_length, body, IsFront, ok, not_found, not_implemented, response_read, framed,
  response-framed,
}

-- The text of the times, and that it is not cut.
times : ℤ → GlobalState → List ℕ
times now state =
    format_long (now -ℤ state.t_local)
    ++ (codes ":" ++ (format_long state.t_local ++ (codes ":" ++ format_long state.t_remote)))

length-times : (now : ℤ) (state : GlobalState) → length (times now state) ≤ 65
unfolding times
length-times now state = omega (
  arith,
  length-append (format_long (now -ℤ state.t_local))
      (codes ":" ++ (format_long state.t_local ++ (codes ":" ++ format_long state.t_remote))),
  length-append (format_long state.t_local) (codes ":" ++ format_long state.t_remote),
  length-format_long-le (now -ℤ state.t_local),
  length-format_long-le state.t_local,
  length-format_long-le state.t_remote,
)

times-AllNonzero : (now : ℤ) (state : GlobalState) → AllNonzero (times now state)
unfolding times
times-AllNonzero now state = AllNonzero-append _ _ (format_long-AllNonzero (now -ℤ state.t_local)) (
  omega arith,
  AllNonzero-append _ _ (format_long-AllNonzero state.t_local)
      (omega arith, format_long-AllNonzero state.t_remote),
)

times_text-times : (now : ℤ) (state : GlobalState) → times_text now state ≡ times now state
unfolding times_text times
times_text-times now state = snprintf_fits 100 _ (omega (arith, length-times now state))

-- The header field of a response counts the bytes of its body.
abbrev IsFramed : List ℕ → Type 0
IsFramed s = content_length s ≡ some (pos (length (body s)))

response-IsFramed :
    {front : List ℕ} (msg : List ℕ)
    → IsFront front
    → AllNonzero msg
    → length msg ≤ 100
    → IsFramed (response front msg)
response-IsFramed {front} msg f nz short =
    let (field, text) = response_read msg f nz short in rw text field

-- The text of a successful answer.
body-answer : (now : ℤ) (state : GlobalState) → body (answer 0 now state) ≡ times now state
unfolding answer
body-answer now state =
    rw times_text-times
      (response_read (times now state) ok (times-AllNonzero now state)
        (omega (arith, length-times now state))).1

-- The bytes of a successful answer.
pub answer-framed :
    (now : ℤ) (state : GlobalState)
    → answer 0 now state ≡ codes "HTTP/1.0 200 OK\nContent-Length:" ++ framed (times_text now state)
unfolding answer
answer-framed now state = rw times_text-times (
    response-framed (times now state) ok (times-AllNonzero now state)
      (omega (arith, length-times now state)))

pub times_text_lem :
    (now : ℤ) (state : GlobalState)
    → times_text now state
      ≡ format_long (now -ℤ state.t_local)
        ++ (codes ":" ++ (format_long state.t_local ++ (codes ":" ++ format_long state.t_remote)))
unfolding format_long times
times_text_lem now state = times_text-times now state

-- What holds of every response with a short text holds of every answer.
pub answer-cases :
    (hres : ℕ) (now : ℤ) (state : GlobalState) (P : List ℕ → Type 0)
    → ((front msg : List ℕ)
        → IsFront front
        → AllNonzero msg
        → length msg ≤ 100
        → P (response front msg))
    → P (answer hres now state)
unfolding answer
answer-cases hres now state P h = elim (Bool-cases (hres == 0)) [
  | inl good ↦
      rw (good, times_text-times)
        (h _ (times now state) ok (times-AllNonzero now state)
          (omega (arith, length-times now state)))
  | inr bad ↦ elim (Bool-cases (hres == 404)) [
    | inl missing ↦ rw (bad, missing) (h _ _ not_found (omega arith) (omega arith))
    | inr other ↦ rw (bad, other) (h _ _ not_implemented (omega arith) (omega arith))
  ]
]

-- Whatever the request, the answer's `Content-Length` is the length of its body.
pub content_length-answer :
    (hres : ℕ) (now : ℤ) (state : GlobalState)
    → content_length (answer hres now state) ≡ some (pos (length (body (answer hres now state))))
content_length-answer hres now state =
    answer-cases hres now state IsFramed (λ front msg f nz short. response-IsFramed msg f nz short)

behind_colon_digits : (ds t : List ℕ) → AllDigits ds → behind (codes ":") (ds ++ (b':' ∷ t)) ≡ t
unfolding behind strncmp
behind_colon_digits [] t h = refl
behind_colon_digits (d ∷ ds) t (hd, h) = ground (arith, behind_colon_digits ds t h)

behind_colon : (z : ℤ) (t : List ℕ) → behind (codes ":") (format_long z ++ (b':' ∷ t)) ≡ t
unfolding format_long
behind_colon (pos n) t = behind_colon_digits (digits 20 n) t (digits-AllDigits 20 n)
behind_colon (negsuc n) t =
    unfold behind strncmp in behind_colon_digits (digits 20 (suc n)) t (digits-AllDigits 20 (suc n))

-- The three numbers of a text "a:l:r", in memory with its terminator.
abbrev pub read_times : List ℕ → Option ℤ × Option ℤ × Option ℤ
read_times s =
    let m = s ++ (0 ∷ []) in
    let l = behind (codes ":") m in (atol m, atol l, atol (behind (codes ":") l))

times_ended :
    (now : ℤ) (state : GlobalState)
    → times now state ++ (0 ∷ [])
      ≡ format_long (now -ℤ state.t_local)
        ++ (b':' ∷ (format_long state.t_local ++ (b':' ∷ (format_long state.t_remote ++ (0 ∷ [])))))
unfolding times
times_ended now state =
    append_assoc (format_long (now -ℤ state.t_local)) _ _
    ∙ ap (λ t. format_long (now -ℤ state.t_local) ++ (b':' ∷ t))
        (append_assoc (format_long state.t_local) _ _)

-- A client that reads a successful answer gets the time since the last event, and the local and
-- the camera's time of that event, if each of them fits a `long`.
pub read_times-answer :
    (now : ℤ) (state : GlobalState)
    → IsLong (now -ℤ state.t_local)
    → IsLong state.t_local
    → IsLong state.t_remote
    → read_times (body (answer 0 now state))
      ≡ (some (now -ℤ state.t_local), some state.t_local, some state.t_remote)
read_times-answer now state ha hl hr = rw (
  body-answer,
  times_ended,
  behind_colon,
  behind_colon,
  atol-format_long (now -ℤ state.t_local) b':' _ ha refl,
  atol-format_long state.t_local b':' _ hl refl,
  atol-format_long state.t_remote 0 [] hr refl,
)
