-- ===== src/MotionClient/Polling.antt =====
-- C/source/production/motion_client.c, `poll_motion`: the descriptors that it leaves open.
use edaf55_project.Base.{
  ℕ, zero, suc, ◌+◌, List, ◌∷◌, Option, none, some, Bool, true, false, ℤ, ◌≡◌, refl, ◌∙◌, ap,
  is_negative, if-cases, if-absurd, arith,
}
use edaf55_project.Memory.{◌>>=◌}
use edaf55_project.Socket.{Socket}
use edaf55_project.Os.{Os, Call, call, socket, close, connect, count}
use edaf55_project.MotionClient.{Polls, motion_get, poll_motion, socket_init}

abbrev pub is_socket : Call → Bool
is_socket socket = true
is_socket _ = false

abbrev pub is_close : Call → Bool
is_close (close fd) = true
is_close _ = false

-- The variables behind a connection that fails.
unfoldable unreached : Os → Polls → Polls
unfolding socket_init call
unreached os w = let w' = socket_init os w in record w' { calls = connect w'.motionfd ∷ w'.calls }

motion_get-unreached :
    (os : Os) (S : Socket) (reply : S.State → Option (List ℕ)) (w : Polls) (s : S.State)
    → ((log : List Call) (fd : ℤ) → is_negative (os.result log (connect fd)) ≡ true)
    → motion_get os S reply w s ≡ some (none, unreached os w, s)
unfolding motion_get unreached socket_init call
motion_get-unreached os S reply w s down =
    if-cases (λ r. r ≡ some (none, unreached os w, s)) (is_negative (os.result log (connect fd)))
      (λ _. refl) (λ up. if-absurd _ (down log fd) up)
  where
    fd : ℤ
    fd = (socket_init os w).motionfd

    log : List Call
    log = (socket_init os w).calls

-- As long as the server cannot be reached, every round makes a socket and none is closed.
pub poll_motion-leak :
    (os : Os) (S : Socket) (reply : S.State → Option (List ℕ)) (connections : ℕ → S.State)
    → ((log : List Call) (fd : ℤ) → is_negative (os.result log (connect fd)) ≡ true)
    → (rounds : ℕ) (w : Polls)
    → (w' : Polls) × (poll_motion os S reply rounds connections w ≡ some w')
      × (count is_socket w'.calls ≡ rounds + count is_socket w.calls)
      × (count is_close w'.calls ≡ count is_close w.calls)
unfolding poll_motion unreached socket_init call
poll_motion-leak os S reply connections down zero w = (w, refl, omega arith, refl)
poll_motion-leak os S reply connections down (suc rounds) w =
    let (w', runs, made, closed) =
      poll_motion-leak os S reply connections down rounds (unreached os w) in
    (
      w',
      ap (λ r. r >>= λ p. poll_motion os S reply rounds connections p.1)
            (motion_get-unreached os S reply w (connections rounds) down)
          ∙ runs,
      omega (arith, made),
      closed,
    )
