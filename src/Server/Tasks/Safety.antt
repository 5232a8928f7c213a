-- ===== src/Server/Tasks/Safety.antt =====
-- What the hand-over between the two picture threads guarantees.
use edaf55_project.Base.{◌≤◌, ◌≡◌, ◌⊎◌, ◌≢◌, [], ◌∷◌, ◌++◌, append-nil, true, arith}
use edaf55_project.CameraMonitor.{CameraMonitor}
use edaf55_project.Server.Tasks.{working, current, System, Reach, begin}
use edaf55_project.Server.Tasks.Invariant.{holding, begin-Holds, Reach-Holds}

-- The two picture threads are never between taking and releasing `global_mutex` together.
pub mutual_exclusion :
    {m : CameraMonitor} {s : System}
    → m.pic_take_send ≤ 1
    → Reach (begin m) s
    → holding s.taker_pc ≡ true
    → holding s.sender_pc ≢ true
mutual_exclusion {m} {s} h r t = λ q. ground (arith, Reach-Holds (begin-Holds m h) r)

-- Every picture is sent once, in the order in which it was taken: what has been sent is what has
-- been taken, but for the picture that the monitor holds if it is still to be sent.
pub pictures_in_order :
    {m : CameraMonitor} {s : System}
    → m.pic_take_send ≤ 1
    → Reach (begin m) s
    → (s.sh.pics ≡ s.sh.out) ⊎ (s.sh.pics ≡ s.sh.out ++ (current s.sh.mon ∷ []))
pictures_in_order {m} {s} h r = ground (arith, Reach-Holds (begin-Holds m h) r, append-nil s.sh.out)

-- No picture is overwritten before it is sent: while a picture is taken, all before it have gone
-- out.
pub taking_all_sent :
    {m : CameraMonitor} {s : System}
    → m.pic_take_send ≤ 1
    → Reach (begin m) s
    → s.taker_pc ≡ working
    → s.sh.pics ≡ s.sh.out
taking_all_sent {m} {s} h r e = ground (arith, Reach-Holds (begin-Holds m h) r, append-nil s.sh.out)

-- No picture is sent twice: what is sent is the last picture taken, and it has not gone out yet.
pub sending_last_taken :
    {m : CameraMonitor} {s : System}
    → m.pic_take_send ≤ 1
    → Reach (begin m) s
    → s.sender_pc ≡ working
    → s.sh.pics ≡ s.sh.out ++ (current s.sh.mon ∷ [])
sending_last_taken {m} {s} h r e = ground (arith, Reach-Holds (begin-Holds m h) r)
