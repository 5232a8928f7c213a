-- ===== src/FakeCapture/Sockets/Leaking.antt =====
-- Which descriptors are open behind the calls of fakecapture.c.
use mathlib.Core.Option.{some-injective}
use edaf55_project.Base.{
  ℕ, List, [], ◌∷◌, some, Bool, true, false, ℤ, pos, negsuc, ◌≡◌, refl, ◌∙◌, ap, inl, inr,
  is_nonzero, is_negative, if◌then◌else◌, ◌==◌, Bool-cases, arith, ◌≤◌, ◌++◌, length, length-take,
  codes,
}
use edaf55_project.Memory.{◌>>=◌}
use edaf55_project.Socket.{Socket, IsLawful}
use edaf55_project.Text.{strlen, snprintf, format_long}
use mathlib.Core.Option
use edaf55_project.ServerCommon.{write_string}
use edaf55_project.ServerCommon.Delivery.{write_n_total}
use edaf55_project.Os.{Os, Call, call, socket, connect, close, malloc, gethostbyname}
use edaf55_project.FakeCapture.{fake_motion_detect, fake_motion_notify, notify_message}
use edaf55_project.FakeCapture.Sockets.{
  MotionSocket, fake_motion_init, open_motion, fake_motion_free, capture_close_stream, notify_once,
  notify_from, detect_once, detect_all,
}

abbrev same : ℤ → ℤ → Bool
same (pos a) (pos b) = a == b
same (negsuc a) (negsuc b) = a == b
same _ _ = false

-- The descriptor is that of a socket which is made and not closed in the log.
abbrev pub is_open : Os → ℤ → List Call → Bool
is_open os fd [] = false
is_open os fd (socket ∷ log) = if same (os.result log socket) fd then true else is_open os fd log
is_open os fd (close f ∷ log) = if same f fd then false else is_open os fd log
is_open os fd (_ ∷ log) = is_open os fd log

-- There is room, localhost is found, and sockets are made and connected without a failure; and, as POSIX documents it, a new socket's
-- descriptor is not open before.
pub record Connects (os : Os) : Type 0 where
  pub fresh : (log : List Call) → is_open os (os.result log socket) log ≡ false
  pub room : (log : List Call) → is_nonzero (os.result log malloc) ≡ true
  pub found : (log : List Call) → is_nonzero (os.result log gethostbyname) ≡ true
  pub reached : (log : List Call) (fd : ℤ) → is_negative (os.result log (connect fd)) ≡ false

same_refl : (a : ℤ) → same a a ≡ true
same_refl (pos a) = ground arith
same_refl (negsuc a) = ground arith

same_eq : (a b : ℤ) → same a b ≡ true → a ≡ b
same_eq (pos a) (pos b) h = ap pos (ground arith)
same_eq (negsuc a) (negsuc b) h = ap negsuc (ground arith)
same_eq (pos a) (negsuc b) h = cc
same_eq (negsuc a) (pos b) h = cc

-- An open descriptor is not one that is not open.
is_open-differs :
    (os : Os) (a b : ℤ) (log : List Call)
    → is_open os a log ≡ false
    → is_open os b log ≡ true
    → same a b ≡ false
is_open-differs os a b log h k = elim (Bool-cases (same a b)) [
  | inl yes-eq ↦
      let e : is_open os a log ≡ is_open os b log =
        ap (λ f. is_open os f log) (same_eq a b yes-eq) in
      cc
  | inr no-eq ↦ no-eq
]

-- The variable behind `fake_motion_init`, and behind a notification.
abbrev initialised : Os → MotionSocket → MotionSocket
initialised os w = record {
  motionfd = os.result w.calls socket;
  calls = gethostbyname ∷ socket ∷ w.calls;
}

abbrev behind_notify : Os → MotionSocket → MotionSocket
behind_notify os w =
    let fd = os.result w.calls socket in
    record { motionfd = fd; calls = close fd ∷ connect fd ∷ gethostbyname ∷ socket ∷ w.calls }

strlen_le : (s : List ℕ) → strlen s ≤ length s
unfolding strlen
strlen_le [] = omega arith
strlen_le (c ∷ s) = ground (arith, strlen_le s)

-- Some frame is one that is notified.
abbrev pub notifies : {T : Type 0} → Bool → List (ℕ × T × ℤ) → Bool
notifies b [] = b
notifies b ((n, _, _) ∷ ns) = notifies (if fake_motion_detect n then true else b) ns

module _ (os : Os) (C : Connects os) (S : Socket) (L : IsLawful S) where
  fake_motion_notify_total :
      (s : S.State) (now : ℤ) → (t : S.State) × (fake_motion_notify S true s now ≡ some t)
  unfolding fake_motion_notify write_string notify_message snprintf
  fake_motion_notify_total s now =
      let msg = notify_message now in
      let (r, t, wrote, _) =
        write_n_total S L msg (strlen msg) (strlen_le msg)
          (omega (
            arith,
            strlen_le msg,
            length-take 99 (codes "GET /motion?Message=" ++ (format_long now ++ codes "\n")),
          ))
          s in
      (t, ap (Option.map (λ (p : ℤ × S.State). p.1)) wrote)

  notify_once-behind_notify :
      (s : S.State) (now : ℤ) (w : MotionSocket)
      → (t : S.State) × (notify_once os S s now w ≡ some (behind_notify os w, t))
  unfolding notify_once notify_from fake_motion_init call
  notify_once-behind_notify s now w =
      let (t, wrote) = fake_motion_notify_total s now in
      (
        t,
        rw (
          C.found (socket ∷ w.calls),
          C.reached (gethostbyname ∷ socket ∷ w.calls) (os.result w.calls socket),
          wrote,
        ),
      )

  notified-first :
      (fd : ℤ) (w : MotionSocket)
      → is_open os fd w.calls ≡ true
      → is_open os fd (behind_notify os w).calls ≡ true
  notified-first fd w h =
      rw (is_open-differs os (os.result w.calls socket) fd w.calls (C.fresh w.calls) h) h

  notified-last :
      (w : MotionSocket)
      → is_open os (behind_notify os w).motionfd (behind_notify os w).calls ≡ false
  notified-last w = rw (same_refl (os.result w.calls socket))

  -- The first socket is open, and behind a notification `motionfd` is closed.
  record IsLeft (fd : ℤ) (notified_once : Bool) (w : MotionSocket) : Type 0 where
    first : is_open os fd w.calls ≡ true
    last : notified_once ≡ true → is_open os w.motionfd w.calls ≡ false

  detect_once-IsLeft :
      (n : ℕ) (s : S.State) (now fd : ℤ) (b : Bool) (w : MotionSocket)
      → IsLeft fd b w
      → (w' : MotionSocket) × (t : S.State) × (detect_once os S n s now w ≡ some (w', t))
        × IsLeft fd (if fake_motion_detect n then true else b) w'
  unfolding detect_once
  detect_once-IsLeft n s now fd b w v = elim (Bool-cases (fake_motion_detect n)) [
    | inl yes-eq ↦
        let (t, runs) = notify_once-behind_notify s now w in
        (
          behind_notify os w,
          t,
          rw (yes-eq, runs),
          rw yes-eq (record { first = notified-first fd w v.first; last = λ _. notified-last w }),
        )
    | inr no-eq ↦ (w, s, rw no-eq, rw no-eq v)
  ]

  detect_all-IsLeft :
      (ns : List (ℕ × S.State × ℤ)) (fd : ℤ) (b : Bool) (w : MotionSocket)
      → IsLeft fd b w
      → (w' : MotionSocket) × (detect_all os S ns w ≡ some w') × IsLeft fd (notifies b ns) w'
  unfolding detect_all
  detect_all-IsLeft [] fd b w v = (w, refl, v)
  detect_all-IsLeft ((n, s, now) ∷ ns) fd b w v =
      let (u, t, once, v') = detect_once-IsLeft n s now fd b w v in
      let (w', more, left) =
        detect_all-IsLeft ns fd (if fake_motion_detect n then true else b) u v' in
      (w', ap (λ o. o >>= λ r. detect_all os S ns r.0) once ∙ more, left)

-- `capture_open_stream` makes a socket.
open_motion-initialised :
    (os : Os) (w : MotionSocket)
    → Connects os
    → open_motion os w ≡ some (initialised os (record w { calls = malloc ∷ w.calls }))
unfolding open_motion fake_motion_init call
open_motion-initialised os w C = rw (C.room w.calls, C.found (socket ∷ malloc ∷ w.calls))

-- Where there is room, localhost is found, and all sockets are made and connected: a stream is
-- opened, frames are captured with a notification for one of them at least, and the stream is
-- closed. All of that returns; the socket of `capture_open_stream` stays open, and
-- `capture_close_stream` closes a descriptor that is closed already.
pub capture_close_stream-leak :
    (os : Os) (S : Socket)
    → Connects os
    → IsLawful S
    → (ns : List (ℕ × S.State × ℤ)) (w : MotionSocket) → notifies false ns ≡ true
    → (opened : MotionSocket) × (seen : MotionSocket) × (open_motion os w ≡ some opened)
      × (detect_all os S ns opened ≡ some seen)
      × (is_open os opened.motionfd (capture_close_stream os seen).calls ≡ true)
      × ((capture_close_stream os seen).calls ≡ close seen.motionfd ∷ seen.calls)
      × (is_open os seen.motionfd seen.calls ≡ false)
unfolding capture_close_stream fake_motion_free call
capture_close_stream-leak os S C L ns w moved =
    let opened = initialised os (record w { calls = malloc ∷ w.calls }) in
    let fresh : IsLeft os C S L opened.motionfd false opened = record {
      first = rw (same_refl (os.result (malloc ∷ w.calls) socket));
      last = λ h. cc;
    } in
    let (seen, sees, v) = detect_all-IsLeft os C S L ns opened.motionfd false opened fresh in
    let closed = v.last moved in
    (
      opened,
      seen,
      open_motion-initialised os w C,
      sees,
      rw (is_open-differs os seen.motionfd opened.motionfd seen.calls closed v.first) v.first,
      refl,
      closed,
    )
