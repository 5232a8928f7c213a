-- ===== src/PictureReciever/Pictures.antt =====
-- PictureReciever.java on the packets that the server writes.
use edaf55_project.Base.{
  ℕ, ◌+◌, ◌/◌, ◌^◌, ◌≡◌, ◌≤◌, ◌<◌, ◌∙◌, refl, ap, sym, List, [], ◌∷◌, ◌++◌, some, length, take,
  drop, arith, append_assoc, drop-append, take-append, pos, length-append, length-drop,
}
use edaf55_project.FakeCapture.{MediaFrame}
use edaf55_project.Packet.{get_picture_size, get_time_stamp, header_size}
use edaf55_project.Packet.RoundTrip.{header}
use edaf55_project.Packet.RoundTrip
use edaf55_project.Server.Frames.Delivery.{packet_of}
use edaf55_project.PictureReciever
use edaf55_project.PictureReciever.{
  InputStream, IsStream, Picture, Received, picture, header_loop, image_loop, receive_into, receive,
  receive_pictures, maximum_picture_size,
}
use edaf55_project.PictureReciever.Loops.{filled_at, image_loop-filled_at, header_loop-filled_at}

-- A read of a header's bytes that are there gives them all.
pub record IsPrompt (I : InputStream) : Type 0 where
  pub stream : IsStream I
  pub prompt :
      (s : I.State) (d rest : List ℕ)
      → length d ≤ header_size
      → I.remaining s ≡ d ++ rest
      → (I.read s (length d)).0 ≡ some d

-- The bytes that stand behind the header.
image_of :
    (head bytes rest : List ℕ)
    → length head ≡ header_size
    → take (length bytes) (drop header_size (filled_at (head ++ rest) header_size bytes)) ≡ bytes
image_of head bytes rest ten =
    let behind = bytes ++ drop (header_size + length bytes) (head ++ rest) in
    let front : take header_size (head ++ rest) ≡ head =
      ap (λ n. take n (head ++ rest)) (sym ten) ∙ take-append head rest in
    let gone : drop header_size (head ++ behind) ≡ behind =
      ap (λ n. drop n (head ++ behind)) (sym ten) ∙ drop-append head behind in
    ap (λ h. take (length bytes) (drop header_size (h ++ behind))) front
    ∙ ap (take (length bytes)) gone
    ∙ take-append bytes (drop (header_size + length bytes) (head ++ rest))

module _ (I : InputStream) (P : IsPrompt I) where
  header_loop-header :
      (s : I.State) (buffer w rest : List ℕ)
      → length w ≡ header_size
      → header_size ≤ length buffer
      → I.remaining s ≡ w ++ rest
      → (t : I.State) × (header_loop I (header_size + 1) s buffer 0 header_size
          ≡ some (0, filled_at buffer 0 w, t))
        × (I.remaining t ≡ rest)
  header_loop-header s buffer [] rest ten room there = absurd (omega arith)
  header_loop-header s buffer (x ∷ d) rest ten room there =
      let (t, q, left) =
        header_loop-filled_at I P.stream 9 s buffer 0 x d rest
          (P.prompt s (x ∷ d) rest (omega arith) there) (omega arith) there in
      (t, ap (header_loop I 11 s buffer 0) (sym ten) ∙ q, left)

  -- The image behind a header that says its size.
  image_done-filled_at :
      (head bytes rest : List ℕ) (s : I.State)
      → get_picture_size (head ++ rest) ≡ length bytes
      → length head ≡ header_size
      → length bytes ≤ length rest
      → (wire : List ℕ) → I.remaining s ≡ bytes ++ wire
      → (t : I.State) × (PictureReciever.header_done I (some (0, head ++ rest, s))
          ≡ picture (record { image = bytes; ts = get_time_stamp (head ++ rest) }) t)
        × (I.remaining t ≡ wire)
  image_done-filled_at head bytes rest s sized ten room wire there =
      let buffer = head ++ rest in
      let (t, runs, left) =
        image_loop-filled_at I P.stream (length bytes + 1) s buffer header_size bytes wire
          (omega arith) (omega (arith, length-append head rest)) there in
      let done : image_loop I (get_picture_size buffer + 1) s buffer header_size
            (get_picture_size buffer)
          ≡ some (0, filled_at buffer header_size bytes, t) =
        ap (λ n. image_loop I (n + 1) s buffer header_size n) sized ∙ runs in
      let cut : take (get_picture_size buffer)
            (drop header_size (filled_at buffer header_size bytes))
          ≡ bytes =
        ap (λ n. take n (drop header_size (filled_at buffer header_size bytes))) sized
        ∙ image_of head bytes rest ten in
      (
        t,
        ap (PictureReciever.image_done I buffer) done
            ∙ ap (λ d. picture (record { image = d; ts = get_time_stamp buffer }) t) cut,
        left,
      )

  -- The client reads a packet as its frame and time stamp, and nothing behind it.
  pub receive_into-packet_of :
      (s : I.State) (buffer : List ℕ) (f : MediaFrame) (rest : List ℕ)
      → length buffer ≡ maximum_picture_size
      → f.sz ≡ length f.bytes
      → 10 + f.sz ≤ maximum_picture_size
      → f.time / 1000000 < 2 ^ 31
      → I.remaining s ≡ packet_of f ++ rest
      → (t : I.State) × (receive_into I buffer s
          ≡ picture (record { image = f.bytes; ts = pos (f.time / 1000000) }) t)
        × (I.remaining t ≡ rest)
  unfolding receive_into
  receive_into-packet_of s buffer f rest size whole fits soon there =
      let head = header f.time f.sz in
      let back = drop 10 buffer in
      let (sized, timed, behind) =
        RoundTrip.header_read [] f.time f.sz f.bytes back (omega arith) soon in
      let (t, headed, left) =
        header_loop-header s buffer head (f.bytes ++ rest) refl (omega arith)
          (there ∙ append_assoc head f.bytes rest) in
      let (u, imaged, last) =
        image_done-filled_at head f.bytes back t (sized ∙ whole) refl
          (omega (arith, length-drop 10 buffer)) rest left in
      (
        u,
        ap (PictureReciever.header_done I) headed
            ∙ imaged
            ∙ ap (λ m. picture (record { image = f.bytes; ts = m }) u) timed,
        last,
      )
