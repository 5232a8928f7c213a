-- ===== src/Camera/Blocks/Balance.antt =====
-- C/source/production/camera.c, fakecapture.c and server.c: the blocks behind a session.
use edaf55_project.Base.{
  ◌+◌, ◌≤◌, length, le→leb, ℕ, List, [], ◌∷◌, some, true, false, ◌≡◌, refl, ◌∙◌, ap, ◌==◌, arith,
}
use edaf55_project.Packet.{header_size}
use edaf55_project.CameraMonitor.{bufsize}
use edaf55_project.Memory.{◌>>=◌}
use edaf55_project.Memory.Blocks.{
  Event, allocated, freed, Allocator, is_live, free, Allocates, SameBlocks,
}
use edaf55_project.FakeCapture.{File, missing, unreadable, contents}
use edaf55_project.Camera.Blocks.{
  frame_free, close_blocks, open_stream_blocks, open_blocks, capture_blocks, get_frame_blocks,
  try_get_frame_blocks, pictures_blocks, session_blocks,
}

-- All files have been read, and none is too large for the packet.
abbrev pub AllRead : List File → Type 0
AllRead [] = Unit
AllRead (contents d ∷ files) = (header_size + length d ≤ bufsize) × AllRead files
AllRead _ = ⊥

-- A live block behind another, both freed.
free_both :
    (a b : ℕ) (log : List Event)
    → (a == 0) ≡ false
    → (b == 0) ≡ false
    → (a == b) ≡ false
    → is_live a log ≡ true
    → is_live b log ≡ true
    → (free b log >>= free a) ≡ some (freed a ∷ freed b ∷ log)
unfolding free
free_both a b log ha hb differ la lb =
    let swapped : (b == a) ≡ false = ground arith in rw (hb, lb, ha, swapped, la)

module _ (alloc : Allocator) (A : Allocates alloc) where
  try_get_frame_blocks-SameBlocks :
      (d : List ℕ) (log : List Event)
      → header_size + length d ≤ bufsize
      → (log' : List Event) × (try_get_frame_blocks alloc (contents d) log ≡ some log')
        × SameBlocks log log'
  unfolding try_get_frame_blocks get_frame_blocks capture_blocks frame_free
  try_get_frame_blocks-SameBlocks d log small =
      let f = alloc log in
      let log1 = allocated f ∷ log in
      let fr = alloc log1 in
      let log2 = allocated fr ∷ log1 in
      let some_f = A.room log in
      let some_fr = A.room log1 in
      let new_f = A.fresh log in
      let new_fr = A.fresh log1 in
      let differ : (f == fr) ≡ false = ground arith in
      let live_f : is_live f log2 ≡ true = ground arith in
      let live_fr : is_live fr log2 ≡ true = ground arith in
      let inside = le→leb (header_size + length d) bufsize small in
      let freed_both = free_both f fr log2 some_f some_fr differ live_f live_fr in
      (
        freed f ∷ freed fr ∷ log2,
        rw (some_f, some_fr, live_f, live_fr, inside, freed_both),
        λ p. ground arith,
      )

  pictures_blocks-SameBlocks :
      (files : List File) (log : List Event)
      → AllRead files
      → (log' : List Event) × (pictures_blocks alloc files log ≡ some log') × SameBlocks log log'
  unfolding pictures_blocks
  pictures_blocks-SameBlocks [] log h = (log, refl, λ p. refl)
  pictures_blocks-SameBlocks (contents d ∷ files) log (small, h) =
      let (log1, once, same) = try_get_frame_blocks-SameBlocks d log small in
      let (log2, more, same') = pictures_blocks-SameBlocks files log1 h in
      (log2, ap (λ o. o >>= pictures_blocks alloc files) once ∙ more, λ p. same' p ∙ same p)
  pictures_blocks-SameBlocks (missing ∷ files) log h = elim h [ ]
  pictures_blocks-SameBlocks (unreadable ∷ files) log h = elim h [ ]

  -- Where there is room, all files can be read and none has more than 49990 bytes: a camera is
  -- opened, any number of pictures is taken, and the camera is closed. All of that is defined, so
  -- that no block is freed twice or read when it is not live, and the same blocks are live
  -- afterwards as before.
  pub session_blocks-SameBlocks :
      (files : List File) (log : List Event)
      → AllRead files
      → (log' : List Event) × (session_blocks alloc files log ≡ some log') × SameBlocks log log'
  unfolding session_blocks open_blocks open_stream_blocks close_blocks
  session_blocks-SameBlocks files log h =
      let cam = alloc log in
      let log1 = allocated cam ∷ log in
      let stream = alloc log1 in
      let log2 = allocated stream ∷ log1 in
      let some_cam = A.room log in
      let some_stream = A.room log1 in
      let new_cam = A.fresh log in
      let new_stream = A.fresh log1 in
      let differ : (cam == stream) ≡ false = ground arith in
      let (log3, taken, same) = pictures_blocks-SameBlocks files log2 h in
      let live_cam : is_live cam log3 ≡ true = same cam ∙ ground arith in
      let live_stream : is_live stream log3 ≡ true = same stream ∙ ground arith in
      let freed_both = free_both cam stream log3 some_cam some_stream differ live_cam live_stream in
      (
        freed cam ∷ freed stream ∷ log3,
        rw (some_cam, some_stream, taken, live_cam, freed_both),
        λ p. let before = same p in ground arith,
      )
