-- ===== src/Server/Frames/Delivery.antt =====
-- A picture that is taken and sent arrives as the packet that the client expects.
use edaf55_project.Base.{
  ℕ, ◌+◌, ◌/◌, ◌%◌, ◌^◌, ◌≤◌, ◌<◌, ◌≡◌, List, ◌++◌, [], append-nil, length, length-append,
  length-drop, take_all, drop_all, take, take-append, drop, none, some, pos, arith,
}
use edaf55_project.Memory.Words.{memcpy_inside}
use edaf55_project.Socket.{Socket, IsLawful}
use edaf55_project.ServerCommon.Delivery.{write_n_whole}
use edaf55_project.FakeCapture.{MediaFrame}
use edaf55_project.CameraMonitor.{
  CameraMonitor, bufsize, save_packet, save_packet_size, get_packet, get_packet_size,
}
use edaf55_project.Packet.{get_picture_size, get_time_stamp}
use edaf55_project.Packet.RoundTrip.{header, setup_packet_fits, setup_packet_overflow, header_read}
use edaf55_project.Server.Frames.{client_save_frame, client_send_frame}

-- The monitor behind a saved frame; `rest` is what the array on the stack held behind the packet.
abbrev pub saved : MediaFrame → List ℕ → CameraMonitor → CameraMonitor
saved f rest m = record m {
  pic_packet = header f.time f.sz ++ (f.bytes ++ rest);
  packet_sz = pos (10 + f.sz);
}

-- An array of the program's size, and a frame with as many bytes as it says.
abbrev pub IsBuffer : List ℕ → Type 0
IsBuffer p = length p ≡ bufsize

save_packet_whole :
    (p : List ℕ) (m : CameraMonitor)
    → IsBuffer p
    → IsBuffer m.pic_packet
    → save_packet p m ≡ some (record m { pic_packet = p })
unfolding save_packet
save_packet_whole p m hp hm = rw (
  memcpy_inside m.pic_packet 0 p bufsize (omega arith) (omega arith),
  take_all bufsize p (omega arith),
  drop_all (0 + bufsize) m.pic_packet (omega arith),
  append-nil,
)

get_packet_whole :
    (p : List ℕ) (m : CameraMonitor)
    → IsBuffer p
    → IsBuffer m.pic_packet
    → get_packet p m ≡ some m.pic_packet
unfolding get_packet
get_packet_whole p m hp hm = rw (
  memcpy_inside p 0 m.pic_packet bufsize (omega arith) (omega arith),
  take_all bufsize m.pic_packet (omega arith),
  drop_all (0 + bufsize) p (omega arith),
  append-nil,
)

module _ (local : List ℕ) (f : MediaFrame) (m : CameraMonitor) (local_size : IsBuffer local) where
  pub saved-IsBuffer :
      f.sz ≡ length f.bytes
      → 10 + f.sz ≤ bufsize
      → IsBuffer (saved f (drop (10 + f.sz) local) m).pic_packet
  saved-IsBuffer whole fits =
      omega (arith, length-append f.bytes (drop (10 + f.sz) local), length-drop (10 + f.sz) local)

  -- A frame of up to 49990 bytes is saved with its size, and the result is 0.
  pub client_save_frame_fits :
      IsBuffer m.pic_packet
      → f.sz ≡ length f.bytes
      → 10 + f.sz ≤ bufsize
      → client_save_frame local (record { fr = some f }) m
        ≡ some (0, saved f (drop (10 + f.sz) local) m)
  unfolding client_save_frame save_packet_size
  client_save_frame_fits hm whole fits = rw (
    setup_packet_fits local f.time f.sz f.bytes (omega arith) (omega arith) (omega arith),
    take_all f.sz f.bytes (omega arith),
    save_packet_whole (header f.time f.sz ++ (f.bytes ++ drop (10 + f.sz) local))
        (record m { packet_sz = pos (10 + f.sz) }) (saved-IsBuffer whole fits) hm,
  )

  -- A larger frame is copied past the end of `pic_packet`: the code has no check, and its branch
  -- for a negative size is never taken.
  pub client_save_frame_overflow :
      bufsize < 10 + f.sz → client_save_frame local (record { fr = some f }) m ≡ none
  unfolding client_save_frame
  client_save_frame_overflow over =
      rw (setup_packet_overflow local f.time f.sz f.bytes (omega arith) (omega arith))

-- A packet in the monitor that was saved from a frame.
abbrev pub packet_of : MediaFrame → List ℕ
packet_of f = header f.time f.sz ++ f.bytes

pub length-packet_of : (f : MediaFrame) → f.sz ≡ length f.bytes → length (packet_of f) ≡ 10 + f.sz
length-packet_of f whole = omega arith

module _ (S : Socket) (L : IsLawful S) where
  -- The saved picture goes out whole if the first `send` takes all it is offered, and the result
  -- is 0.
  pub send_saved :
      (local rest : List ℕ) (f : MediaFrame) (m : CameraMonitor) (s t : S.State)
      → IsBuffer local
      → IsBuffer (saved f rest m).pic_packet
      → f.sz ≡ length f.bytes
      → 10 + f.sz ≤ bufsize
      → S.send s (packet_of f) ≡ (pos (10 + f.sz), t)
      → (client_send_frame S s local (saved f rest m) ≡ some (0, t))
        × (S.wire t ≡ S.wire s ++ packet_of f)
  unfolding client_send_frame get_packet_size
  send_saved local rest f m s t hl hm whole fits q =
      let front : take (10 + f.sz) (saved f rest m).pic_packet ≡ packet_of f =
        rw (← length-packet_of f whole) (take-append (packet_of f) rest) in
      let (runs, sent) =
        write_n_whole S L (saved f rest m).pic_packet (10 + f.sz) (omega arith) (omega arith) s t
          (omega arith) (rw front q) in
      let size : (10 + f.sz) % 2 ^ 32 ≡ 10 + f.sz = omega arith in
      (
        rw (get_packet_whole local (saved f rest m) hl hm, size, runs) (ground arith),
        rw front at sent,
      )

-- What the client reads in the packet of a picture.
pub record IsReadAs (packet : List ℕ) (f : MediaFrame) : Type 0 where
  pub size : get_picture_size packet ≡ f.sz
  pub stamp : get_time_stamp packet ≡ pos (f.time / 1000000)
  pub picture : drop 10 packet ≡ f.bytes

packet_of-IsReadAs :
    (f : MediaFrame) → 10 + f.sz ≤ bufsize → f.time / 1000000 < 2 ^ 31 → IsReadAs (packet_of f) f
packet_of-IsReadAs f fits soon =
    let (size, stamp, picture) = header_read [] f.time f.sz f.bytes f.bytes (omega arith) soon in
    record { size = size; stamp = stamp; picture = picture }

-- On a lawful socket and with arrays of the program's size, for a picture of up to 49990 bytes with
-- a time below 2 ^ 31 milliseconds that is saved and then sent, where the first `send` takes the
-- whole packet: both calls give 0, and exactly the packet goes out, from which the client reads the
-- picture, its size, and the time in milliseconds.
pub picture_delivered :
    (S : Socket) (L : IsLawful S) (local local' : List ℕ) (f : MediaFrame) (m : CameraMonitor)
    (s t : S.State)
    → IsBuffer local
    → IsBuffer local'
    → IsBuffer m.pic_packet
    → f.sz ≡ length f.bytes
    → 10 + f.sz ≤ bufsize
    → f.time / 1000000 < 2 ^ 31
    → S.send s (packet_of f) ≡ (pos (10 + f.sz), t)
    → (m' : CameraMonitor) × (client_save_frame local (record { fr = some f }) m ≡ some (0, m'))
      × (client_send_frame S s local' m' ≡ some (0, t))
      × (S.wire t ≡ S.wire s ++ packet_of f)
      × IsReadAs (packet_of f) f
picture_delivered S L local local' f m s t hl hl' hm whole fits soon q =
    let rest = drop (10 + f.sz) local in
    let (runs, sent) =
      send_saved S L local' rest f m s t hl' (saved-IsBuffer local f m hl whole fits) whole fits
        q in
    (
      saved f rest m,
      client_save_frame_fits local f m hl hm whole fits,
      runs,
      sent,
      packet_of-IsReadAs f fits soon,
    )
