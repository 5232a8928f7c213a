-- ===== src/Camera.antt =====
-- C/source/production/camera.c and camera.h: the wrapper of the capture library, built with FAKE,
-- so over fakecapture.c.
pub mod Blocks
use edaf55_project.Base.{ℕ, ◌+◌, List, Option, none, some, Bool, true, false}
use edaf55_project.FakeCapture.{
  MediaStream, MediaFrame, File, capture_open_stream, capture_get_frame, capture_frame_data,
  capture_frame_size, capture_frame_timestamp, capture_frame_height, capture_frame_width,
}

-- `struct camera`
pub record Camera : Type 0 where
  pub frame_nbr : ℕ
  pub stream : MediaStream

-- `struct frame`; the pointer `fr` may be NULL.
pub record Frame : Type 0 where
  pub fr : Option MediaFrame

-- `camera_open()`; the argument says whether `malloc` finds room. NULL is `none`.
unfoldable pub camera_open : Bool → Option Camera
camera_open false = none
camera_open true = some (record { frame_nbr = 0; stream = capture_open_stream })

-- `camera_get_frame(cam)`: the frame, and the camera afterwards. The frame's pointer is not NULL,
-- also where the capture library has given no frame.
unfoldable pub camera_get_frame : (List ℕ → File) → ℕ → ℕ → Camera → Option Frame × Camera
camera_get_frame disk sec nsec cam =
    let c = capture_get_frame disk sec nsec cam.stream in
    (some (record { fr = c.frame }), record { frame_nbr = cam.frame_nbr + 1; stream = c.stream })

unfoldable pub get_frame_bytes : Frame → Option (List ℕ)
unfolding capture_frame_data
get_frame_bytes f = capture_frame_data f.fr

unfoldable pub get_frame_size : Frame → Option ℕ
unfolding capture_frame_size
get_frame_size f = capture_frame_size f.fr

unfoldable pub get_frame_timestamp : Frame → ℕ
unfolding capture_frame_timestamp
get_frame_timestamp f = capture_frame_timestamp f.fr

unfoldable pub get_frame_height : Frame → ℕ
unfolding capture_frame_height
get_frame_height f = capture_frame_height f.fr

unfoldable pub get_frame_width : Frame → ℕ
unfolding capture_frame_width
get_frame_width f = capture_frame_width f.fr
