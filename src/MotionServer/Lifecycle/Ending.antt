-- ===== src/MotionServer/Lifecycle/Ending.antt =====
-- C/source/production/motion_server.c, `serve_clients`: it ends once `running` is cleared.
use edaf55_project.Base.{
  ℕ, zero, suc, ◌+◌, ◌≤◌, ◌<◌, List, ◌∷◌, Option, some, Bool, true, false, ℤ, pos, ◌≡◌, refl,
  is_negative, length, if-cases, if-absurd, Bool-cases, ltb, ltb→lt, ltb→ge, inl, inr, arith,
}
use edaf55_project.Os.{Os, Call, call, accept, poll}
use edaf55_project.MotionServer.{GlobalState}
use edaf55_project.MotionServer.Lifecycle.{try_accept, polled, serve_loop, serve_clients}

-- The function returns.
abbrev Returns : Option (ℤ × List Call) → Type 0
Returns r = (result : ℤ) × (log : List Call) × (r ≡ some (result, log))

module _ (os : Os) (runs : List Call → Bool) (answered : ℤ → List Call → List Call)
    (grows : (fd : ℤ) (log : List Call) → length log ≤ length (answered fd log)) where
  length-try_accept :
      (state : GlobalState) (log : List Call)
      → length log ≤ length (try_accept os runs answered state log).1
  unfolding try_accept call
  length-try_accept state log =
      if-cases {A = ℤ × List Call} (λ p. length log ≤ length p.1) (is_negative a) (λ _. omega arith)
        (λ _. omega (arith, grows a (accept state.listenfd ∷ log)))
    where
      a : ℤ
      a = os.result log (accept state.listenfd)

  length-polled :
      (state : GlobalState) (result ret : ℤ) (log : List Call)
      → length log ≤ length (polled os runs answered state result ret log).2
  unfolding polled
  length-polled state result ret log = ground (arith, length-try_accept state log)

  module _ (n : ℕ) (stops : (log : List Call) → n ≤ length log → runs log ≡ false) where
    serve_loop-Returns :
        (fuel : ℕ) (state : GlobalState) (result : ℤ) (log : List Call)
        → n < fuel + length log
        → 0 < fuel
        → Returns (serve_loop os runs answered fuel state result log)
    unfolding serve_loop call
    serve_loop-Returns zero state result log enough some_fuel =
        let f : ⊥ = omega arith in elim f [ ]
    serve_loop-Returns (suc fuel) state result log enough some_fuel =
        if-cases Returns (runs log)
          (λ on.
            if-cases Returns (polled os runs answered state result ret log').0
              (λ _.
                serve_loop-Returns fuel state _ _
                  (omega (arith, length-polled state result ret log', early on))
                  (omega (arith, early on)))
              (λ _. (_, _, refl)))
          (λ _. (_, _, refl))
      where
        ret : ℤ
        ret = os.result log (poll state.pfd)

        log' : List Call
        log' = poll state.pfd ∷ log

        early : runs log ≡ true → length log < n
        early on = elim (Bool-cases (ltb (length log) n)) [
          | inl less ↦ ltb→lt _ _ less
          | inr not_less ↦ if-absurd _ on (stops log (ltb→ge _ _ not_less))
        ]

-- If no test of `running` succeeds behind `n` calls, and `serve_client` takes no call back, then
-- `serve_clients` returns within `n + 1` rounds.
pub serve_clients-Returns :
    (os : Os) (runs : List Call → Bool) (answered : ℤ → List Call → List Call)
    → ((fd : ℤ) (log : List Call) → length log ≤ length (answered fd log))
    → (n : ℕ) → ((log : List Call) → n ≤ length log → runs log ≡ false)
    → (state : GlobalState) (log : List Call)
    → Returns (serve_clients os runs answered (suc n) state log)
unfolding serve_clients
serve_clients-Returns os runs answered grows n stops state log =
    serve_loop-Returns os runs answered grows n stops (suc n) _ (pos 0) log (omega arith)
      (omega arith)
