-- ===== src/Server/Tasks/Shutdown.antt =====
-- What happens when the client disconnects while a picture thread is between two pictures.
use edaf55_project.Base.{◌≡◌, refl, ◌≢◌, Bool, true, false, arith}
use edaf55_project.CameraMonitor.{get_pic_take_send, set_mode}
use edaf55_project.Server.Tasks.{
  Role, taker, sender, Shared, Pc, locking, testing, waiting, closing, finished, Move, enter, leave,
  lock, go, wait, wake, relock, handle, flip, unlock, broadcast, close, System, ModePc, ModeMove,
  mode_enter, mode_leave, received, disconnected, read_failed, set, mode_close, OtherMove,
  other_lock, other_unlock, other_broadcast, Step, by_taker, by_sender, by_mode, by_other, Reach,
  here, later, turn,
}

abbrev pub gone : Pc → Bool
gone closing = true
gone finished = true
gone _ = false

-- The thread is in the code that waits for its turn.
abbrev pub in_wait : Pc → Bool
in_wait locking = true
in_wait testing = true
in_wait waiting = true
in_wait _ = false

abbrev pub pc_of : Role → System → Pc
pc_of taker s = s.taker_pc
pc_of sender s = s.sender_pc

abbrev pub opposite : Role → Role
opposite taker = sender
opposite sender = taker

-- Thread `r` waits for a turn that only the other picture thread could give it, and that thread has
-- left its loop.
pub record IsStarved (r : Role) (s : System) : Type 0 where
  pub waits : in_wait (pc_of r s) ≡ true
  pub left : gone (pc_of (opposite r) s) ≡ true
  pub not_its_turn : get_pic_take_send s.sh.mon ≢ turn r

-- A thread that has left changes nothing any more.
gone-Move :
    {r : Role} {sh sh' : Shared} {p p' : Pc}
    → Move r sh p sh' p'
    → gone p ≡ true
    → (gone p' ≡ true) × (sh' ≡ sh)
gone-Move close h = (refl, refl)
gone-Move (enter _) h = cc
gone-Move (leave _) h = cc
gone-Move (lock _) h = cc
gone-Move (go _) h = cc
gone-Move (wait _) h = cc
gone-Move wake h = cc
gone-Move (relock _ _) h = cc
gone-Move (handle _) h = cc
gone-Move flip h = cc
gone-Move unlock h = cc
gone-Move broadcast h = cc

-- A thread that waits goes on waiting as long as it is not its turn.
waiting-Move :
    (r : Role) {sh sh' : Shared} {p p' : Pc}
    → Move r sh p sh' p'
    → in_wait p ≡ true
    → get_pic_take_send sh.mon ≢ turn r
    → (in_wait p' ≡ true) × (sh'.mon ≡ sh.mon)
waiting-Move r (lock _) h ne = (refl, refl)
waiting-Move r (go e) h ne = absurd (ne e)
waiting-Move taker (wait _) h ne = (refl, refl)
waiting-Move sender (wait _) h ne = (refl, refl)
waiting-Move taker wake h ne = (refl, refl)
waiting-Move sender wake h ne = (refl, refl)
waiting-Move r (relock _ _) h ne = (refl, refl)
waiting-Move r (enter _) h ne = cc
waiting-Move r (leave _) h ne = cc
waiting-Move r (handle _) h ne = cc
waiting-Move r flip h ne = cc
waiting-Move r unlock h ne = cc
waiting-Move r broadcast h ne = cc
waiting-Move r close h ne = cc

mode-Move :
    {sh sh' : Shared} {p p' : ModePc}
    → ModeMove sh p sh' p'
    → sh'.mon.pic_take_send ≡ sh.mon.pic_take_send
unfolding set_mode
mode-Move (mode_enter _) = refl
mode-Move (mode_leave _) = refl
mode-Move (received _) = refl
mode-Move disconnected = refl
mode-Move read_failed = refl
mode-Move set = refl
mode-Move mode_close = refl

other-Move : {sh sh' : Shared} → OtherMove sh sh' → sh'.mon ≡ sh.mon
other-Move (other_lock _) = refl
other-Move (other_unlock _) = refl
other-Move other_broadcast = refl

Step-IsStarved : (r : Role) {s t : System} → Step s t → IsStarved r s → IsStarved r t
unfolding get_pic_take_send
Step-IsStarved taker (by_taker mv) v = ground (arith, waiting-Move taker mv v.waits v.not_its_turn)
Step-IsStarved taker (by_sender mv) v = ground (arith, gone-Move mv v.left)
Step-IsStarved sender (by_sender mv) v =
    ground (arith, waiting-Move sender mv v.waits v.not_its_turn)
Step-IsStarved sender (by_taker mv) v = ground (arith, gone-Move mv v.left)
Step-IsStarved taker (by_mode mv) v = ground (arith, mode-Move mv)
Step-IsStarved sender (by_mode mv) v = ground (arith, mode-Move mv)
Step-IsStarved taker (by_other mv) v = ground (arith, other-Move mv)
Step-IsStarved sender (by_other mv) v = ground (arith, other-Move mv)

Reach-IsStarved : (r : Role) {s t : System} → IsStarved r s → Reach s t → IsStarved r t
Reach-IsStarved r v here = v
Reach-IsStarved r v (later w st) = Step-IsStarved r st (Reach-IsStarved r v w)

-- A starved thread never ends, whatever the threads do from there on.
pub starved_never_ends :
    (r : Role) {s t : System} → IsStarved r s → Reach s t → pc_of r t ≢ finished
starved_never_ends r {s} {t} v w = λ e. ground (arith, Reach-IsStarved r v w)
