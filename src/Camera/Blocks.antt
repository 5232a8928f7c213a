-- ===== src/Camera/Blocks.antt =====
-- C/source/production/camera.c and fakecapture.c: the blocks that the functions allocate and free.
-- What they do to the frames is in Camera.antt and FakeCapture.antt.
pub mod Balance
use edaf55_project.Base.{
  ℕ, ◌+◌, leb, length, List, [], ◌∷◌, Option, none, some, Bool, true, false, ◌&&◌, ◌==◌,
  if◌then◌else◌,
}
use edaf55_project.Memory.{◌>>=◌}
use edaf55_project.Memory.Blocks.{Event, Allocator, is_live, malloc, free}
use edaf55_project.Packet.{header_size}
use edaf55_project.CameraMonitor.{bufsize}
use edaf55_project.FakeCapture.{File, missing, unreadable, contents}

-- The pointers of a `struct camera` or a `struct frame` and of what it points to.
pub record Pointers : Type 0 where
  pub outer : ℕ
  pub inner : ℕ

-- `capture_frame_free(frame)`
abbrev pub capture_frame_free : ℕ → List Event → Option (List Event)
capture_frame_free frame log = free frame log

-- `frame_free(f)`: `f->fr` is read first.
unfoldable pub frame_free : Pointers → List Event → Option (List Event)
frame_free f log =
    let freed = capture_frame_free f.inner log >>= free f.outer in
    if is_live f.outer log then freed else none

-- `camera_close(cam)` with `capture_close_stream`: `cam->stream` is read first.
unfoldable pub close_blocks : Pointers → List Event → Option (List Event)
close_blocks cam log =
    let freed = free cam.inner log >>= free cam.outer in
    if is_live cam.outer log then freed else none

-- `setup_packet` stays inside `pic_packet[BUFSIZE]`.
abbrev pub fits_packet : File → Bool
fits_packet (contents d) = leb (header_size + length d) bufsize
fits_packet _ = true

module _ (alloc : Allocator) where
  -- `capture_open_stream`: the result of `malloc` is written through.
  unfoldable pub open_stream_blocks : List Event → Option (ℕ × List Event)
  open_stream_blocks log = let s = malloc alloc log in if s.0 == 0 then none else some s

  -- `camera_open()`
  unfoldable pub open_blocks : List Event → Option (Pointers × List Event)
  unfolding open_stream_blocks
  open_blocks log =
      let cam = malloc alloc log in
      let opened =
        open_stream_blocks cam.1 >>= λ s. some (record { outer = cam.0; inner = s.0 }, s.1) in
      if cam.0 == 0 then some (record { outer = 0; inner = 0 }, cam.1) else opened

  -- `capture_get_frame(stream)` on a file: the pointer, which is NULL where there is no frame.
  unfoldable pub capture_blocks : File → List Event → Option (ℕ × List Event)
  capture_blocks missing log = some (0, log)
  capture_blocks unreadable log =
      let res = malloc alloc log in
      let freed = free res.0 res.1 >>= λ l. some (0, l) in if res.0 == 0 then none else freed
  capture_blocks (contents d) log =
      let res = malloc alloc log in if res.0 == 0 then none else some res

  -- `camera_get_frame(cam)`
  unfoldable pub get_frame_blocks : File → List Event → Option (Pointers × List Event)
  unfolding capture_blocks
  get_frame_blocks file log =
      let f = malloc alloc log in
      let got =
        capture_blocks file f.1 >>= λ fr. some (record { outer = f.0; inner = fr.0 }, fr.1) in
      if f.0 == 0 then none else got

  -- `try_get_frame(client)` in server.c: `client_save_frame` reads through both pointers and copies
  -- the frame behind a header of ten bytes into `pic_packet`, which is undefined where it is too
  -- small; the frame is freed whatever its result.
  unfoldable pub try_get_frame_blocks : File → List Event → Option (List Event)
  unfolding get_frame_blocks frame_free
  try_get_frame_blocks file log = get_frame_blocks file log >>= λ f.
      let freed = frame_free f.0 f.1 in
      if is_live f.0.outer f.1 && (is_live f.0.inner f.1 && fits_packet file) then freed else none

  -- So many pictures, one behind the other.
  unfoldable pub pictures_blocks : List File → List Event → Option (List Event)
  unfolding try_get_frame_blocks
  pictures_blocks [] log = some log
  pictures_blocks (file ∷ files) log = try_get_frame_blocks file log >>= pictures_blocks files

  -- A camera that is opened, gives pictures and is closed.
  unfoldable pub session_blocks : List File → List Event → Option (List Event)
  unfolding open_blocks close_blocks pictures_blocks
  session_blocks files log =
      open_blocks log >>= λ cam. pictures_blocks files cam.1 >>= close_blocks cam.0
