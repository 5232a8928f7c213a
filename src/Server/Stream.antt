-- ===== src/Server/Stream.antt =====
-- C/source/production/server.c: the threads of a client with the frames that they move. The steps
-- are those of Tasks.antt, but what `take_picture_task` and `send_picture_task` do with a picture is
-- here `try_get_frame` and `try_send_frame` on the monitor, the camera and the connection. The
-- files on the disk stay as they are; the clock is read anew for each frame.
pub mod Relay
pub mod Shows
pub mod Effects
pub mod Refines
pub mod Film
use edaf55_project.Base.{ℕ, ◌≡◌, List, [], ◌∷◌, ◌++◌, some, true}
use edaf55_project.Socket.{Socket}
use edaf55_project.FakeCapture.{File, MediaFrame, capture_get_frame}
use edaf55_project.Camera.{Camera}
use edaf55_project.CameraMonitor.{CameraMonitor}
use edaf55_project.Server.Frames.{try_get_frame, try_send_frame}
use edaf55_project.Server.Frames.Delivery.{IsBuffer}
use edaf55_project.Server.Tasks.{System, Step, Shared, working, flipping, current, begin}

-- The threads, the camera and the connection. `shots` are the frames captured so far, for the
-- theorems.
pub record Live (S : Socket) : Type 0 where
  pub sys : System
  pub cam : Camera
  pub conn : S.State
  pub shots : List MediaFrame

-- The threads behind `try_get_frame`, which leaves the monitor `m`, and behind `try_send_frame`.
abbrev pub took : CameraMonitor → System → System
took m s = record s {
  sh = record (s.sh) { mon = m; pics = s.sh.pics ++ (current m ∷ []) };
  taker_pc = flipping;
}

abbrev pub sent : System → System
sent s = record s {
  sh = record (s.sh) { out = s.sh.out ++ (current s.sh.mon ∷ []) };
  sender_pc = flipping;
}

-- One step: of a thread between its frames, or one frame taken or sent. `local` is what
-- `pic_packet` holds on the stack before. Where `try_get_frame` is undefined there is no step. Nor
-- is there one for a thread that finds `!cam_mon->cam` at its work and flips without a frame:
-- `try_accept` creates the threads only where the camera is open.
pub data LiveStep (disk : List ℕ → File) (S : Socket) (c : Live S) : Live S → Type 0 where
  between :
      {s : System}
      → Step c.sys s
      → s.sh.pics ≡ c.sys.sh.pics
      → s.sh.out ≡ c.sys.sh.out
      → LiveStep disk S c (record c { sys = s })
  takes :
      (sec nsec : ℕ) (local : List ℕ) (f : MediaFrame) (code : ℕ) (m : CameraMonitor) (cam : Camera)
      → IsBuffer local
      → c.sys.sh.mon.cam ≡ true
      → c.sys.taker_pc ≡ working
      → (capture_get_frame disk sec nsec c.cam.stream).frame ≡ some f
      → try_get_frame disk sec nsec local c.cam c.sys.sh.mon ≡ some (code, m, cam)
      → LiveStep disk S c (record c { sys = took m c.sys; cam = cam; shots = c.shots ++ (f ∷ []) })
  sends :
      (local : List ℕ) (code : ℕ) (conn : S.State)
      → IsBuffer local
      → c.sys.sh.mon.cam ≡ true
      → c.sys.sender_pc ≡ working
      → try_send_frame S c.conn local c.sys.sh.mon ≡ some (code, conn)
      → LiveStep disk S c (record c { sys = sent c.sys; conn = conn })

pub data LiveReach (disk : List ℕ → File) (S : Socket) (c : Live S) : Live S → Type 0 where
  begun : LiveReach disk S c c
  then_step : {d e : Live S} → LiveReach disk S c d → LiveStep disk S d e → LiveReach disk S c e

-- The threads just created, over the monitor `m`.
abbrev pub begin_live : (S : Socket) → CameraMonitor → Camera → S.State → Live S
begin_live S m cam conn = record { sys = begin m; cam = cam; conn = conn; shots = [] }
