-- ===== src/Packet.antt =====
-- The packet that carries a picture: C/source/production/server.c writes it (`setup_packet`), and
-- edaf55_project_java/src/networking/PicturePack.java reads its header.
pub mod RoundTrip
use edaf55_project.Base.{
  ℕ, ◌+◌, ◌/◌, List, ◌++◌, [], ◌∷◌, take, drop, Option, some, ℤ, pos, negsuc, ◌^◌, ◌-◌, ltb,
  if◌then◌else◌,
}
use edaf55_project.Memory.{memcpy, le_bytes, le_value, ◌>>=◌}
use edaf55_project.ServerCommon.{add_size, to_ssize}

abbrev pub header_size : ℕ
header_size = 10

-- `setup_packet(pic_packet, time_stamp, frame_sz, data)`: the packet's array and the result. `none`
-- is a copy outside the arrays. The eight bytes of the time stamp and the first two of the four
-- bytes of the size are copied from memory.
unfoldable pub setup_packet : List ℕ → ℕ → ℕ → List ℕ → Option (List ℕ × ℤ)
setup_packet pic_packet time_stamp frame_sz data_bytes = do
  let ms = time_stamp / 1000000
  p ← memcpy pic_packet 0 (le_bytes 8 ms) 8
  q ← memcpy p 8 (le_bytes 4 frame_sz) 2
  r ← memcpy q header_size data_bytes frame_sz
  some (r, to_ssize (add_size header_size frame_sz))

-- `PicturePack.getPictureSize(buffer)`: two bytes and two zeros as a little-endian `int`.
unfoldable pub get_picture_size : List ℕ → ℕ
get_picture_size buffer = le_value (take 2 (drop 8 buffer) ++ (0 ∷ 0 ∷ []))

-- `PicturePack.getTimeStamp(buffer)`: the first four bytes as a little-endian `int`.
unfoldable pub get_time_stamp : List ℕ → ℤ
get_time_stamp buffer =
    let w = le_value (take 4 buffer) in if ltb w (2 ^ 31) then pos w else negsuc (2 ^ 32 - w - 1)
