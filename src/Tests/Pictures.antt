-- ===== src/Tests/Pictures.antt =====
-- Packets and the fake camera on small inputs.
use edaf55_project.Base.{
  ℕ, ◌+◌, ◌≡◌, refl, List, [], ◌++◌, length, replicate, some, none, pos, negsuc, false, arith,
  codes, length-replicate,
}
use edaf55_project.Socket.Pipe.{Pipe, pipe, pipe-IsLawful}
use edaf55_project.FakeCapture.{MediaFrame, contents, capture_get_frame, frame_of, file_name}
use edaf55_project.Text.{snprintf}
use edaf55_project.CameraMonitor.{CameraMonitor, bufsize}
use edaf55_project.Memory.{◌>>=◌}
use edaf55_project.Server.Frames.{client_save_frame, client_send_frame, try_get_frame}
use edaf55_project.Server.Frames.Taking.{taken, try_get_frame-taken}
use edaf55_project.Server.Frames.Delivery.{
  packet_of, IsReadAs, picture_delivered, client_save_frame_overflow,
}

abbrev pub zeros : List ℕ
zeros = replicate bufsize 0

pub zeros-length : length zeros ≡ bufsize
zeros-length = length-replicate {A = ℕ} bufsize 0

abbrev fresh : CameraMonitor
fresh = record {
  pic_packet = zeros;
  mode = pos 0;
  pic_taken = false;
  pic_sent = false;
  pic_take_send = 0;
  connfd = negsuc 0;
  connmodefd = negsuc 0;
  packet_sz = pos 0;
  cam = false;
}

abbrev small : MediaFrame
small = record { sz = 3; time = 1_500_000_000; bytes = codes "jpg" }

abbrev large : MediaFrame
large = record { sz = 60000; time = 0; bytes = [] }

abbrev idle_pipe : Pipe
idle_pipe = record { limits = []; out = [] }

file_name_first : file_name 80 ≡ codes "media/film080.jpg"
unfolding file_name snprintf
file_name_first = refl

picture_delivered_example :
    (m : CameraMonitor) × (client_save_frame zeros (record { fr = some small }) fresh ≡ some (0, m))
    × (client_send_frame pipe idle_pipe zeros m
        ≡ some (0, record { limits = []; out = packet_of small }))
    × (packet_of small ≡ [] ++ packet_of small)
    × IsReadAs (packet_of small) small
picture_delivered_example =
    picture_delivered pipe pipe-IsLawful zeros zeros small fresh idle_pipe
      (record { limits = []; out = packet_of small }) zeros-length zeros-length zeros-length refl
      (omega arith) (omega arith) refl

client_save_frame_overflow_example :
    client_save_frame zeros (record { fr = some large }) fresh ≡ none
client_save_frame_overflow_example =
    client_save_frame_overflow zeros large fresh zeros-length (omega arith)

try_get_frame-taken_example :
    try_get_frame
      (λ n. contents (codes "jpg"))
      1
      2
      zeros
      (record { frame_nbr = 0; stream = record { frame_nr = 80 } })
      fresh
    ≡ (taken zeros (some (frame_of 1 2 (codes "jpg"))) fresh >>= λ r.
        some (r.0, r.1, record { frame_nbr = 0 + 1; stream = record { frame_nr = 81 } }))
unfolding capture_get_frame
try_get_frame-taken_example =
    try_get_frame-taken (λ n. contents (codes "jpg")) 1 2 zeros
      (record { frame_nbr = 0; stream = record { frame_nr = 80 } }) fresh zeros-length zeros-length
