-- ===== src/Server/Frames.antt =====
-- C/source/production/server.c: taking a picture into the monitor (`try_get_frame`,
-- `client_save_frame`) and sending the one that is there (`try_send_frame`, `client_send_frame`).
-- `none` is an access that C leaves undefined. The arrays on the stack begin with any contents. The
-- check of `sizeof(size_t)` is passed, since sizes are 32-bit.
pub mod Delivery
pub mod Taking
use edaf55_project.Base.{
  ℕ, ◌-◌, ◌%◌, ◌^◌, List, ◌++◌, Option, none, some, Bool, true, false, ℤ, pos, negsuc, is_negative,
  ◌==◌, if◌then◌else◌, not, suc, sub_ℕ, ◌+◌,
}
use edaf55_project.Memory.{◌>>=◌}
use edaf55_project.Socket.{Socket}
use edaf55_project.ServerCommon.{write_n, write_string}
use edaf55_project.FakeCapture.{File}
use edaf55_project.Camera.{
  Camera, Frame, camera_get_frame, get_frame_size, get_frame_bytes, get_frame_timestamp,
}
use edaf55_project.CameraMonitor.{
  CameraMonitor, get_packet, get_packet_size, save_packet, save_packet_size,
}
use edaf55_project.Packet.{setup_packet}
use edaf55_project.Server.{Client}

abbrev pub err_get_frame : ℕ
err_get_frame = 2

-- `client_save_frame(client, fr)`, with the contents of `pic_packet` before: the result and the
-- monitor.
unfoldable pub client_save_frame : List ℕ → Frame → CameraMonitor → Option (ℕ × CameraMonitor)
unfolding get_frame_size get_frame_bytes get_frame_timestamp
client_save_frame pic_packet fr m = do
  frame_sz ← get_frame_size fr
  let time_stamp = get_frame_timestamp fr
  bytes ← get_frame_bytes fr
  packet ← setup_packet pic_packet time_stamp frame_sz bytes
  m' ← save_packet packet.0 (save_packet_size packet.1 m)
  some (if is_negative packet.1 then 1 else 0, m')

-- What `try_get_frame` does with the pointer that it gets.
unfoldable pub try_save : List ℕ → Option Frame → CameraMonitor → Option (ℕ × CameraMonitor)
try_save pic_packet none m = some (err_get_frame, m)
try_save pic_packet (some fr) m = client_save_frame pic_packet fr m

-- `try_get_frame(client)`: a frame from the camera goes into the monitor, unless its pointer is
-- NULL; then it is freed. The files and the clock are those of the fake camera.
unfoldable pub try_get_frame :
    (List ℕ → File) → ℕ → ℕ → List ℕ → Camera → CameraMonitor → Option (ℕ × CameraMonitor × Camera)
unfolding try_save
try_get_frame disk sec nsec pic_packet cam m = do
  let got = camera_get_frame disk sec nsec cam
  r ← try_save pic_packet got.0 m
  some (r.0, r.1, got.1)

-- The conversion of a `ssize_t` to `size_t`.
abbrev pub to_size : ℤ → ℕ
to_size (pos n) = n % 2 ^ 32
to_size (negsuc n) = 2 ^ 32 - suc n % 2 ^ 32

-- `written != packet_sz`
abbrev pub differs : ℤ → ℤ → Bool
differs (pos a) (pos b) = not (a == b)
differs (negsuc a) (negsuc b) = not (a == b)
differs _ _ = true

module _ (S : Socket) where
  -- `client_write_n(send_data, n)` on the connection `cam_mon->connfd`.
  unfoldable pub client_write_n : S.State → List ℕ → ℕ → Option (ℤ × S.State)
  client_write_n s send_data n = write_n S s send_data n

  -- `client_write_string(client)`
  unfoldable pub client_write_string : S.State → Client → Option (ℤ × S.State)
  client_write_string s client = write_string S s client.send_buff

  -- `client_send_frame(client)`, with the contents of `pic_packet` before: the result and the
  -- connection.
  unfoldable pub client_send_frame : S.State → List ℕ → CameraMonitor → Option (ℕ × S.State)
  unfolding client_write_n
  client_send_frame s pic_packet m = do
    packet ← get_packet pic_packet m
    let packet_sz = get_packet_size m
    written ← client_write_n s packet (to_size packet_sz)
    some (if differs written.0 packet_sz then 3 else 0, written.1)

  -- `try_send_frame(client)`
  unfoldable pub try_send_frame : S.State → List ℕ → CameraMonitor → Option (ℕ × S.State)
  try_send_frame s pic_packet m = client_send_frame s pic_packet m
