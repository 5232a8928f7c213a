-- ===== src/Server/Tasks/Starving.antt =====
-- A schedule on which a disconnection starves the sender.
use edaf55_project.Base.{◌≡◌, refl, arith, [], ◌∷◌}
use edaf55_project.CameraMonitor.{CameraMonitor, init, get_pic_take_send, flip_pic_take_send}
use edaf55_project.Server.Tasks.{
  sender, Picture, enter, leave, lock, go, wait, handle, flip, unlock, broadcast, System,
  mode_enter, disconnected, by_taker, by_sender, by_mode, begin, Reach, here, later,
}
use edaf55_project.Server.Tasks.Shutdown.{IsStarved}

module _ (m : CameraMonitor) (p : Picture) where
  -- The taker takes the picture `p` and stops before it looks at `isConnected` again.
  after_taking : (s : System) × Reach (begin (init m)) s
  unfolding init get_pic_take_send flip_pic_take_send
  after_taking = (
    _,
    later
        (later
          (later
            (later
              (later (later (later here (by_taker (enter refl))) (by_taker (lock refl)))
                (by_taker (go refl)))
              (by_taker (handle p)))
            (by_taker flip))
          (by_taker unlock))
        (by_taker broadcast),
  )

  -- The sender sends it, comes round and waits for the next one.
  after_sending : (s : System) × Reach (begin (init m)) s
  unfolding after_taking
  after_sending = (
    _,
    later
        (later
          (later
            (later
              (later
                (later
                  (later
                    (later
                      (later (later after_taking.1 (by_sender (enter refl)))
                        (by_sender (lock refl)))
                      (by_sender (go refl)))
                    (by_sender (handle p)))
                  (by_sender flip))
                (by_sender unlock))
              (by_sender broadcast))
            (by_sender (enter refl)))
          (by_sender (lock refl)))
        (by_sender (wait (λ e. absurd (omega arith)))),
  )

  -- Now the client disconnects, and the taker finds that out.
  after_leaving : (s : System) × Reach (begin (init m)) s
  unfolding after_sending
  after_leaving = (
    _,
    later (later (later after_sending.1 (by_mode (mode_enter refl))) (by_mode disconnected))
        (by_taker (leave refl)),
  )

  -- For every picture there is a run of the threads, from a fresh monitor, in which that picture is
  -- taken and sent, the client disconnects, and the sender is starved.
  pub disconnect_starves :
      (s : System) × Reach (begin (init m)) s × IsStarved sender s × (s.sh.out ≡ p ∷ [])
  unfolding after_leaving
  disconnect_starves = (
    after_leaving.0,
    after_leaving.1,
    record { waits = refl; left = refl; not_its_turn = λ e. absurd (omega arith) },
    refl,
  )
