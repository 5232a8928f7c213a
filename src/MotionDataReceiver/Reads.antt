-- ===== src/MotionDataReceiver/Reads.antt =====
-- The bytes of the motion server's answer in the client's buffer.
use edaf55_project.Base.{
  ℕ, zero, suc, ◌+◌, ◌-◌, ◌/◌, ◌%◌, ◌≤◌, ◌<◌, ◌≡◌, ◌∙◌, refl, ap, ap₂, sym, List, [], ◌∷◌, ◌++◌,
  some, false, ℤ, pos, codes, take, drop, length, arith, append_assoc, take-append,
  take-append-drop, length-take, drop-drop, drop-append_add, leb, and_false, if◌then◌else◌,
}
use edaf55_project.Text.{digits, format_unsigned}
use edaf55_project.Text.Decimal.{AllDigits}
use edaf55_project.PictureReciever.{InputStream, IsStream, header_loop}
use edaf55_project.PictureReciever.Loops.{filled_at, length-filled_at, header_loop-filled_at}
use edaf55_project.MotionServer.{GlobalState}
use edaf55_project.MotionServer.Respond.{answer, times_text}
use edaf55_project.MotionServer.Respond.Reading.{framed}
use edaf55_project.MotionServer.Respond.Times.{answer-framed}
use edaf55_project.MotionDataReceiver.{
  head_size, trim, trim_front, trim_end, is_nil, parse_int, number_of, get_time_size, get_times,
  detected, answered, head_done, size_done, times_done, receive_times,
}

-- A read of bytes that are there gives them all.
pub record IsWhole (I : InputStream) : Type 0 where
  pub stream : IsStream I
  pub whole :
      (s : I.State) (d rest : List ℕ) → I.remaining s ≡ d ++ rest → (I.read s (length d)).0 ≡ some d

format_unsigned_two :
    (n : ℕ) → 10 ≤ n → n < 100 → format_unsigned n ≡ (b'0' + n / 10) ∷ (b'0' + n % 10) ∷ []
unfolding format_unsigned digits
format_unsigned_two n h h' = ground arith

-- The first 58 bytes of an answer whose text has so many bytes.
abbrev head_of : ℕ → List ℕ
head_of n =
    codes "HTTP/1.0 200 OK\nContent-Length:"
    ++ ((b'0' + n / 10) ∷ (b'0' + n % 10) ∷ codes "\nContent-Type: text/plain")

parse_int_two :
    (n : ℕ) → 10 ≤ n → n < 100 → parse_int ((b'0' + n / 10) ∷ (b'0' + n % 10) ∷ []) ≡ some (pos n)
unfolding parse_int number_of
parse_int_two n h h' = ground arith

trim_end-cons : (c : ℕ) (s : List ℕ) → leb c b' ' ≡ false → trim_end (c ∷ s) ≡ c ∷ trim_end s
trim_end-cons c s h =
    ap (λ b. if b then [] else c ∷ trim_end s) (and_false (is_nil (trim_end s)) (leb c b' ') h)

trim_end-append : (ds s : List ℕ) → AllDigits ds → trim_end s ≡ [] → trim_end (ds ++ s) ≡ ds
trim_end-append [] s digit gone = gone
trim_end-append (c ∷ ds) s (digit, digits) gone =
    trim_end-cons c (ds ++ s) (ground arith) ∙ ap (λ r. c ∷ r) (trim_end-append ds s digits gone)

-- Digits are not trimmed; what stands behind them may be.
pub trim-append : (ds s : List ℕ) → AllDigits ds → trim_end s ≡ [] → trim (ds ++ s) ≡ ds
trim-append [] s digits gone = ap trim_front gone
trim-append (c ∷ ds) s (digit, digits) gone =
    let low : leb c b' ' ≡ false = ground arith in
    ap trim_front (trim_end-append (c ∷ ds) s (digit, digits) gone)
    ∙ ap (λ b. if b then trim_front ds else c ∷ ds) low

get_time_size-head_of :
    (n : ℕ) (behind : List ℕ)
    → 10 ≤ n
    → n < 100
    → get_time_size (head_of n ++ behind) ≡ some (pos n)
unfolding get_time_size
get_time_size-head_of n behind h h' =
    ap parse_int (
      trim-append ((b'0' + n / 10) ∷ (b'0' + n % 10) ∷ []) (10 ∷ [])
        (ground arith, (ground arith, tt)) refl)
    ∙ parse_int_two n h h'

answer-head_of :
    (now : ℤ) (state : GlobalState)
    → let text = times_text now state in
      10 ≤ length text
      → length text < 100
      → answer 0 now state ≡ head_of (length text) ++ (codes "\n\n" ++ text)
unfolding framed
answer-head_of now state some_bytes few =
    let text = times_text now state in
    answer-framed now state
    ∙ ap
        (λ d.
          codes "HTTP/1.0 200 OK\nContent-Length:"
          ++ (d ++ (codes "\nContent-Type: text/plain\n\n" ++ text)))
        (format_unsigned_two (length text) some_bytes few)

pub drop-append_le : (k : ℕ) (s t : List ℕ) → k ≤ length s → drop k (s ++ t) ≡ drop k s ++ t
drop-append_le zero s t h = refl
drop-append_le (suc k) [] t h = absurd (omega arith)
drop-append_le (suc k) (c ∷ s) t h = drop-append_le k s t (omega arith)

-- Two writes, one behind the other, and what stands behind them.
two_writes :
    (buffer head d : List ℕ)
    → length head + length d ≤ length buffer
    → filled_at (filled_at buffer 0 head) (length head) d
      ≡ head ++ (d ++ drop (length head + length d) buffer)
two_writes buffer head d room =
    let behind = drop (0 + length head) buffer in
    ap₂ (λ a r. a ++ (d ++ r)) (take-append head behind)
      (drop-append_add head behind (length d)
        ∙ drop-drop (length d) (0 + length head) buffer
        ∙ ap (λ n. drop n buffer) (omega arith))

module _ (I : InputStream) (W : IsWhole I) where
  -- So many bytes at the offset `off`.
  loop_whole :
      (s : I.State) (buffer : List ℕ) (off : ℕ) (d rest : List ℕ)
      → 0 < length d
      → off + length d ≤ length buffer
      → I.remaining s ≡ d ++ rest
      → (t : I.State) × (header_loop I (length d + 1) s buffer off (length d)
          ≡ some (0, filled_at buffer off d, t))
        × (I.remaining t ≡ rest)
  loop_whole s buffer off [] rest some_bytes room there = absurd (omega arith)
  loop_whole s buffer off (x ∷ d) rest some_bytes room there =
      let (t, q, left) =
        header_loop-filled_at I W.stream (length d) s buffer off x d rest
          (W.whole s (x ∷ d) rest there) room there in
      (t, ap (λ f. header_loop I f s buffer off (length (x ∷ d))) (omega arith) ∙ q, left)

  -- The client and the motion server: what a round of the client reads of the answer to its
  -- request.
  receive_times-split :
      (s : I.State) (buffer head d rest : List ℕ)
      → length head ≡ head_size
      → get_time_size (head ++ drop head_size buffer) ≡ some (pos (length d))
      → 0 < length d
      → head_size + length d ≤ length buffer
      → I.remaining s ≡ head ++ (d ++ rest)
      → (t : I.State) × (let b = head ++ (d ++ drop (head_size + length d) buffer) in
          receive_times I buffer s ≡ answered I (detected (get_times b)) b t)
        × (I.remaining t ≡ rest)
  unfolding receive_times
  receive_times-split s buffer head d rest whole sized some_bytes room there =
      let n = length d in
      let front = filled_at buffer 0 head in
      let behind : front ≡ head ++ drop head_size buffer =
        let e : 0 + length head ≡ head_size = omega arith in ap (λ k. head ++ drop k buffer) e in
      let (t, q, left) = loop_whole s buffer 0 head (d ++ rest) (omega arith) (omega arith) there in
      let (u, q', left') =
        loop_whole t front head_size d rest some_bytes
          (omega (arith, length-filled_at buffer 0 head)) left in
      let written : filled_at front head_size d ≡ head ++ (d ++ drop (head_size + n) buffer) =
        ap (λ k. filled_at front k d) (sym whole)
        ∙ two_writes buffer head d (omega arith)
        ∙ ap (λ k. head ++ (d ++ drop (k + n) buffer)) whole in
      (
        u,
        ap (λ k. head_done I (header_loop I (k + 1) s buffer 0 k)) (sym whole)
            ∙ ap (head_done I) q
            ∙ ap (λ o. size_done I o front t) (ap get_time_size behind ∙ sized)
            ∙ ap (times_done I) q'
            ∙ ap (λ b. answered I (detected (get_times b)) b u) written,
        left',
      )

  -- A round of the client on the motion server's answer, whose text has from 10 to 42 bytes: it takes
  -- the times from the buffer in which that text stands from index 64 on without its first four
  -- and its last two bytes; these two are left in the stream.
  pub receive_times-answer :
      (s : I.State) (buffer rest : List ℕ) (now : ℤ) (state : GlobalState)
      → let text = times_text now state in
        length buffer ≡ 100
        → 10 ≤ length text
        → length text ≤ 42
        → I.remaining s ≡ answer 0 now state ++ rest
        → (t : I.State) × (b : List ℕ) × (receive_times I buffer s
            ≡ answered I (detected (get_times b)) b t)
          × (drop 64 b
              ≡ drop 4 (take (length text - 2) text) ++ drop (head_size + length text) buffer)
          × (I.remaining t ≡ drop (length text - 2) text ++ rest)
  receive_times-answer s buffer rest now state hundred some_bytes few there =
      let text = times_text now state in
      let n = length text in
      let d : List ℕ = codes "\n\n" ++ take (n - 2) text in
      let last = drop (n - 2) text in
      let sized : length d ≡ n = omega (arith, length-take (n - 2) text) in
      let there' : I.remaining s ≡ head_of n ++ (d ++ (last ++ rest)) =
        there
        ∙ ap (λ a. a ++ rest) (answer-head_of now state some_bytes (omega arith))
        ∙ ap (λ a. head_of n ++ (codes "\n\n" ++ (a ++ rest))) (sym (take-append-drop (n - 2) text))
        ∙ ap (λ a. head_of n ++ (codes "\n\n" ++ a)) (append_assoc (take (n - 2) text) last rest) in
      let (t, got, left) =
        receive_times-split s buffer (head_of n) d (last ++ rest) refl
          (get_time_size-head_of n (drop head_size buffer) some_bytes (omega arith)
            ∙ ap (λ k. some (pos k)) (sym sized))
          (omega arith) (omega arith) there' in
      (
        t,
        head_of n ++ (d ++ drop (head_size + length d) buffer),
        got,
        drop-append_le 4 (take (n - 2) text) (drop (head_size + length d) buffer)
              (omega (arith, length-take (n - 2) text))
            ∙ ap (λ k. drop 4 (take (n - 2) text) ++ drop (head_size + k) buffer) sized,
        left,
      )
