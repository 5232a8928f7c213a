-- ===== src/Tests/Threads.antt =====
-- The theorems about the threads at reachable states.
use edaf55_project.Base.{◌≡◌, refl, ◌⊎◌, [], ◌∷◌, true, false, pos, arith, codes}
use edaf55_project.CameraMonitor.{CameraMonitor, init, get_pic_take_send, flip_pic_take_send}
use edaf55_project.Server.Tasks.{
  taker, sender, other, Picture, enter, lock, go, handle, flip, unlock, broadcast, System, by_taker,
  by_sender, begin, Reach, here, later,
}
use edaf55_project.Server.Tasks.Progress.{Advances, no_deadlock}
use edaf55_project.Server.Tasks.Shutdown.{IsStarved}
use edaf55_project.Server.Tasks.Starving.{disconnect_starves}

abbrev pub monitor : CameraMonitor
monitor = record {
  pic_packet = [];
  mode = pos 0;
  pic_taken = false;
  pic_sent = true;
  pic_take_send = 0;
  connfd = pos 4;
  connmodefd = pos 5;
  packet_sz = pos 0;
  cam = true;
}

abbrev photo : Picture
photo = (codes "jpg", pos 3)

-- The taker is about to take the first picture.
taking : (s : System) × Reach (begin monitor) s
unfolding get_pic_take_send
taking = (
  _,
  later (later (later here (by_taker (enter refl))) (by_taker (lock refl))) (by_taker (go refl)),
)

-- The sender is about to send it.
sending : (s : System) × Reach (begin monitor) s
unfolding taking flip_pic_take_send
sending = (
  _,
  later
      (later
        (later
          (later
            (later (later (later taking.1 (by_taker (handle photo))) (by_taker flip))
              (by_taker unlock))
            (by_taker broadcast))
          (by_sender (enter refl)))
        (by_sender (lock refl)))
      (by_sender (go refl)),
)

no_deadlock_example :
    ((sending.0).sh.owner ≡ other)
    ⊎ (Advances taker (sending.0).sh (sending.0).taker_pc
        ⊎ Advances sender (sending.0).sh (sending.0).sender_pc)
unfolding sending
no_deadlock_example = no_deadlock (omega arith) sending.1 refl

disconnect_starves_example :
    (s : System) × Reach (begin (init monitor)) s × IsStarved sender s × (s.sh.out ≡ photo ∷ [])
disconnect_starves_example = disconnect_starves monitor photo
