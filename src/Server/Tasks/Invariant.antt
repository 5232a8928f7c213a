-- ===== src/Server/Tasks/Invariant.antt =====
-- What holds in every state of the threads: who holds the mutex, whose turn it is, that no wake-up
-- is lost, and which pictures have gone out.
use edaf55_project.Base.{
  ℕ, ◌≤◌, ◌≡◌, ◌⊎◌, [], ◌∷◌, ◌++◌, append-nil, Bool, true, false, arith, ◌||◌, ◌&&◌, not, ◌==◌,
  if◌then◌else◌,
}
use edaf55_project.CameraMonitor.{CameraMonitor, get_pic_take_send, flip_pic_take_send, set_mode}
use edaf55_project.Server.Tasks.{
  Role, taker, sender, Owner, thread, Shared, Pc, testing, waiting, working, flipping, unlocking,
  signalling, closing, finished, Move, enter, leave, lock, go, wait, wake, relock, handle, flip,
  unlock, broadcast, close, current, System, ModePc, ModeMove, mode_enter, mode_leave, received,
  disconnected, read_failed, set, mode_close, OtherMove, other_lock, other_unlock, other_broadcast,
  Step, by_taker, by_sender, by_mode, by_other, begin, Reach, here, later,
}

abbrev pub holding : Pc → Bool
holding testing = true
holding working = true
holding flipping = true
holding unlocking = true
holding _ = false

-- The thread has found that it is its turn, and has not yet ended it.
abbrev pub busy : Pc → Bool
busy working = true
busy flipping = true
busy _ = false

-- The thread has ended its turn and is still to broadcast.
abbrev pub announcing : Pc → Bool
announcing unlocking = true
announcing signalling = true
announcing _ = false

abbrev pub owns : Role → Owner → Bool
owns taker (thread taker) = true
owns sender (thread sender) = true
owns _ _ = false

-- Whether the monitor holds a picture that is still to be sent.
abbrev pub is_flipping : Pc → Bool
is_flipping flipping = true
is_flipping _ = false

abbrev pub pending : ℕ → Bool → Bool → Bool
pending flag taken sent = taken || (flag == 1 && not sent)

abbrev pub leaving : Pc → Bool
leaving closing = true
leaving finished = true
leaving _ = false

pub record Inv (sh : Shared) (tp sp : Pc) : Type 0 where
  pub flag_range : sh.mon.pic_take_send ≤ 1
  pub taker_owns : holding tp ≡ owns taker sh.owner
  pub sender_owns : holding sp ≡ owns sender sh.owner
  pub taker_turn : busy tp ≡ true → sh.mon.pic_take_send ≡ 0
  pub sender_turn : busy sp ≡ true → sh.mon.pic_take_send ≡ 1
  pub taker_wakes :
      sh.taker_parked ≡ true
      → (tp ≡ waiting) × ((sh.mon.pic_take_send ≡ 1) ⊎ (announcing sp ≡ true))
  pub sender_wakes :
      sh.sender_parked ≡ true
      → (sp ≡ waiting) × ((sh.mon.pic_take_send ≡ 0) ⊎ (announcing tp ≡ true))
  pub taker_serves : sh.connected ≡ true → leaving tp ≡ false
  pub sender_serves : sh.connected ≡ true → leaving sp ≡ false
  pub logs :
      sh.pics
      ≡ sh.out
        ++ (if pending sh.mon.pic_take_send (is_flipping tp) (is_flipping sp)
            then current sh.mon ∷ []
            else [])

taker-Inv : {sh sh' : Shared} {p p' sp : Pc} → Move taker sh p sh' p' → Inv sh p sp → Inv sh' p' sp
unfolding get_pic_take_send flip_pic_take_send
taker-Inv (enter h) v = ground arith
taker-Inv (leave h) v = ground arith
taker-Inv (lock h) v = ground arith
taker-Inv (go h) v = ground arith
taker-Inv (wait h) v = ground arith
taker-Inv wake v = ground arith
taker-Inv (relock h k) v = ground arith
taker-Inv {sh} (handle p) v = ground (arith, append-nil sh.out)
taker-Inv flip v = ground arith
taker-Inv unlock v = ground arith
taker-Inv broadcast v = ground arith
taker-Inv close v = ground arith

sender-Inv :
    {sh sh' : Shared} {tp p p' : Pc} → Move sender sh p sh' p' → Inv sh tp p → Inv sh' tp p'
unfolding get_pic_take_send flip_pic_take_send
sender-Inv (enter h) v = ground arith
sender-Inv (leave h) v = ground arith
sender-Inv (lock h) v = ground arith
sender-Inv (go h) v = ground arith
sender-Inv (wait h) v = ground arith
sender-Inv wake v = ground arith
sender-Inv (relock h k) v = ground arith
sender-Inv {sh} (handle p) v = ground (arith, append-nil (sh.out ++ (current sh.mon ∷ [])))
sender-Inv flip v = ground arith
sender-Inv unlock v = ground arith
sender-Inv broadcast v = ground arith
sender-Inv close v = ground arith

abbrev pub Holds : System → Type 0
Holds s = Inv s.sh s.taker_pc s.sender_pc

mode-Inv :
    {sh sh' : Shared} {tp sp : Pc} {p p' : ModePc}
    → ModeMove sh p sh' p'
    → Inv sh tp sp
    → Inv sh' tp sp
unfolding set_mode
mode-Inv (mode_enter h) v = v
mode-Inv (mode_leave h) v = v
mode-Inv (received c) v = v
mode-Inv disconnected v = ground arith
mode-Inv read_failed v = v
mode-Inv set v = ground arith
mode-Inv mode_close v = v

other-Inv : {sh sh' : Shared} {tp sp : Pc} → OtherMove sh sh' → Inv sh tp sp → Inv sh' tp sp
other-Inv (other_lock h) v = ground arith
other-Inv (other_unlock h) v = ground arith
other-Inv other_broadcast v = ground arith

pub Step-Holds : {s t : System} → Step s t → Holds s → Holds t
Step-Holds (by_taker mv) v = taker-Inv mv v
Step-Holds (by_sender mv) v = sender-Inv mv v
Step-Holds (by_mode mv) v = mode-Inv mv v
Step-Holds (by_other mv) v = other-Inv mv v

pub begin-Holds : (m : CameraMonitor) → m.pic_take_send ≤ 1 → Holds (begin m)
begin-Holds m h = ground arith

pub Reach-Holds : {s t : System} → Holds s → Reach s t → Holds t
Reach-Holds v here = v
Reach-Holds v (later r st) = Step-Holds st (Reach-Holds v r)
