-- ===== src/CameraMonitor.antt =====
-- C/source/production/camera_monitor.c and camera_monitor.h: the state that the server's threads
-- share, and the functions on it. Each function holds `camera_mutex` for the whole of its access,
-- so it is one step of its thread.
use edaf55_project.Base.{ℕ, List, Option, some, Bool, true, false, ℤ, pos, ◌==◌, if◌then◌else◌}
use edaf55_project.Memory.{memcpy, ◌>>=◌}

abbrev pub movie_mode : ℤ
movie_mode = pos 1

abbrev pub idle_mode : ℤ
idle_mode = pos 0

abbrev pub send_pic_state : ℕ
send_pic_state = 1

abbrev pub take_pic_state : ℕ
take_pic_state = 0

abbrev pub bufsize : ℕ
bufsize = 50000

-- `struct camera_monitor`. `cam` says whether the pointer to the camera is set.
pub record CameraMonitor : Type 0 where
  pub pic_packet : List ℕ
  pub mode : ℤ
  pub pic_taken : Bool
  pub pic_sent : Bool
  pub pic_take_send : ℕ
  pub connfd : ℤ
  pub connmodefd : ℤ
  pub packet_sz : ℤ
  pub cam : Bool

-- `init()`: `malloc` gives a monitor with any contents, of which four fields are set.
unfoldable pub init : CameraMonitor → CameraMonitor
init fresh = record fresh {
  pic_sent = true;
  pic_taken = false;
  pic_take_send = 0;
  mode = idle_mode;
}

unfoldable pub get_pic_take_send : CameraMonitor → ℕ
get_pic_take_send m = m.pic_take_send

unfoldable pub flip_pic_take_send : CameraMonitor → CameraMonitor
flip_pic_take_send m =
    if m.pic_take_send == 1 then record m { pic_take_send = 0 } else record m { pic_take_send = 1 }

unfoldable pub set_mode : ℤ → CameraMonitor → CameraMonitor
set_mode val m = record m { mode = val }

-- The result is read from the monitor again.
unfoldable pub set_pic_taken : Bool → CameraMonitor → Bool × CameraMonitor
set_pic_taken val m = let m' = record m { pic_taken = val } in (m'.pic_taken, m')

unfoldable pub set_pic_sent : Bool → CameraMonitor → Bool × CameraMonitor
set_pic_sent val m = let m' = record m { pic_sent = val } in (m'.pic_sent, m')

-- `get_packet(pic_copy)`: the caller's array afterwards.
unfoldable pub get_packet : List ℕ → CameraMonitor → Option (List ℕ)
get_packet pic_copy m = memcpy pic_copy 0 m.pic_packet bufsize

unfoldable pub save_packet : List ℕ → CameraMonitor → Option CameraMonitor
save_packet pic m = do p ← memcpy m.pic_packet 0 pic bufsize; some (record m { pic_packet = p })

unfoldable pub get_mode : CameraMonitor → ℤ
get_mode m = m.mode

unfoldable pub get_pic_taken : CameraMonitor → Bool
get_pic_taken m = m.pic_taken

unfoldable pub get_pic_sent : CameraMonitor → Bool
get_pic_sent m = m.pic_sent

unfoldable pub save_packet_size : ℤ → CameraMonitor → CameraMonitor
save_packet_size sz m = record m { packet_sz = sz }

unfoldable pub get_packet_size : CameraMonitor → ℤ
get_packet_size m = m.packet_sz
