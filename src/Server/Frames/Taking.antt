-- ===== src/Server/Frames/Taking.antt =====
-- `try_get_frame` on whatever the capture library gives.
use edaf55_project.Base.{
  ℕ, ◌+◌, List, drop, length, leb, if◌then◌else◌, ◌≡◌, refl, ap, Option, none, some, if-cases,
  arith,
}
use edaf55_project.Memory.{◌>>=◌}
use edaf55_project.FakeCapture.{File, MediaFrame, capture_get_frame}
use edaf55_project.FakeCapture.Cycle.{capture_get_frame-Holds}
use edaf55_project.Camera.{Camera, camera_get_frame, get_frame_size}
use edaf55_project.CameraMonitor.{CameraMonitor, bufsize}
use edaf55_project.Server.Frames.{client_save_frame, try_get_frame, try_save}
use edaf55_project.Server.Frames.Delivery.{
  saved, IsBuffer, client_save_frame_fits, client_save_frame_overflow,
}

-- What becomes of a captured frame: a NULL one is read through, one that is too large overruns the
-- packet, and any other is saved with the result 0.
abbrev pub taken : List ℕ → Option MediaFrame → CameraMonitor → Option (ℕ × CameraMonitor)
taken local none m = none
taken local (some f) m =
    if leb (10 + f.sz) bufsize then some (0, saved f (drop (10 + f.sz) local) m) else none

client_save_frame-taken :
    (local : List ℕ) (fr : Option MediaFrame) (m : CameraMonitor)
    → IsBuffer local
    → IsBuffer m.pic_packet
    → ((f : MediaFrame) → fr ≡ some f → f.sz ≡ length f.bytes)
    → client_save_frame local (record { fr = fr }) m ≡ taken local fr m
unfolding client_save_frame get_frame_size
client_save_frame-taken local none m hl hm whole = refl
client_save_frame-taken local (some f) m hl hm whole =
    if-cases (λ r. client_save_frame local (record { fr = some f }) m ≡ r) (leb (10 + f.sz) bufsize)
      (λ fits. client_save_frame_fits local f m hl hm (whole f refl) (ground arith))
      (λ over. client_save_frame_overflow local f m hl (ground arith))

-- With arrays of the program's size, `try_get_frame` returns exactly where the capture library gives
-- a frame of at most 49990 bytes; it saves the frame, and its result is 0. Where no frame is captured
-- it reads through NULL, so that the results 1 and ERR_GET_FRAME never occur.
pub try_get_frame-taken :
    (disk : List ℕ → File) (sec nsec : ℕ) (local : List ℕ) (cam : Camera) (m : CameraMonitor)
    → IsBuffer local
    → IsBuffer m.pic_packet
    → try_get_frame disk sec nsec local cam m ≡ (
        taken local (capture_get_frame disk sec nsec cam.stream).frame m >>= λ r. some (
          r.0,
          r.1,
          record {
            frame_nbr = cam.frame_nbr + 1;
            stream = (capture_get_frame disk sec nsec cam.stream).stream;
          },
        ))
unfolding try_get_frame try_save camera_get_frame
try_get_frame-taken disk sec nsec local cam m hl hm =
    ap
      (λ o. o >>= λ r. some (
        r.0,
        r.1,
        record {
          frame_nbr = cam.frame_nbr + 1;
          stream = (capture_get_frame disk sec nsec cam.stream).stream;
        },
      ))
      (client_save_frame-taken local (capture_get_frame disk sec nsec cam.stream).frame m hl hm
        (λ f e. (capture_get_frame-Holds disk sec nsec cam.stream f e).2.sz_eq))
