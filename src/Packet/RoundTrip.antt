-- ===== src/Packet/RoundTrip.antt =====
-- What `setup_packet` writes, and that the client reads it back.
use edaf55_project.Base.{
  ℕ, ◌+◌, ◌/◌, ◌^◌, ◌≤◌, ◌<◌, ◌≡◌, refl, ◌∙◌, ap, List, ◌++◌, length, length-drop, drop-drop,
  drop-append_add, take, drop, none, some, pos, arith,
}
use edaf55_project.Memory.{memcpy, le_bytes, le_value}
use edaf55_project.Memory.Words.{memcpy_inside, memcpy_outside, le_value-le_bytes}
use edaf55_project.ServerCommon.{to_ssize, add_size}
use edaf55_project.Packet.{setup_packet, get_picture_size, get_time_stamp}

-- The ten bytes of a header.
abbrev pub header : ℕ → ℕ → List ℕ
header time_stamp frame_sz = le_bytes 8 (time_stamp / 1000000) ++ le_bytes 2 frame_sz

module _ (p : List ℕ) (time_stamp frame_sz : ℕ) (d : List ℕ) where
  with_time :
      10 ≤ length p
      → memcpy p 0 (le_bytes 8 (time_stamp / 1000000)) 8
        ≡ some (le_bytes 8 (time_stamp / 1000000) ++ drop 8 p)
  with_time h = memcpy_inside p 0 (le_bytes 8 (time_stamp / 1000000)) 8 (omega arith) (omega arith)

  with_size :
      10 ≤ length p
      → memcpy (le_bytes 8 (time_stamp / 1000000) ++ drop 8 p) 8 (le_bytes 4 frame_sz) 2
        ≡ some (header time_stamp frame_sz ++ drop 10 p)
  with_size h =
      memcpy_inside (le_bytes 8 (time_stamp / 1000000) ++ drop 8 p) 8 (le_bytes 4 frame_sz) 2
        (omega (arith, length-drop 8 p)) (omega arith)
      ∙ ap (λ r. some (header time_stamp frame_sz ++ r)) (drop-drop 2 8 p)

  with_frame :
      10 + frame_sz ≤ length p
      → frame_sz ≤ length d
      → memcpy (header time_stamp frame_sz ++ drop 10 p) 10 d frame_sz
        ≡ some (header time_stamp frame_sz ++ (take frame_sz d ++ drop (10 + frame_sz) p))
  with_frame h k =
      memcpy_inside (header time_stamp frame_sz ++ drop 10 p) 10 d frame_sz
        (omega (arith, length-drop 10 p)) k
      ∙ ap (λ r. some (header time_stamp frame_sz ++ (take frame_sz d ++ r)))
          (drop-append_add (header time_stamp frame_sz) (drop 10 p) frame_sz
            ∙ drop-drop frame_sz 10 p)

  -- Where the frame fits the array, the packet is the header, the frame and the rest of the array,
  -- and the result is the size of the first two.
  pub setup_packet_fits :
      10 + frame_sz ≤ length p
      → frame_sz ≤ length d
      → length p < 2 ^ 31
      → setup_packet p time_stamp frame_sz d
        ≡ some (
          header time_stamp frame_sz ++ (take frame_sz d ++ drop (10 + frame_sz) p),
          pos (10 + frame_sz),
        )
  unfolding setup_packet
  setup_packet_fits h k small =
      let exact : to_ssize (add_size 10 frame_sz) ≡ pos (10 + frame_sz) = ground arith in
      rw (with_time (omega arith), with_size (omega arith), with_frame h k, exact)

  -- Where it does not fit, the copy of the frame runs past the array's end.
  pub setup_packet_overflow :
      10 ≤ length p → length p < 10 + frame_sz → setup_packet p time_stamp frame_sz d ≡ none
  unfolding setup_packet
  setup_packet_overflow h over = rw (
    with_time h,
    with_size h,
    memcpy_outside (header time_stamp frame_sz ++ drop 10 p) 10 d frame_sz
        (omega (arith, length-drop 10 p)),
  )

  -- The client reads back the size of every frame below 64 KiB, and the time in milliseconds as
  -- long as it is below 2 ^ 31; the frame stands behind the header.
  pub header_read :
      (rest : List ℕ)
      → frame_sz < 2 ^ 16
      → time_stamp / 1000000 < 2 ^ 31
      → (get_picture_size (header time_stamp frame_sz ++ rest) ≡ frame_sz)
        × (get_time_stamp (header time_stamp frame_sz ++ rest) ≡ pos (time_stamp / 1000000))
        × (drop 10 (header time_stamp frame_sz ++ rest) ≡ rest)
  unfolding get_picture_size get_time_stamp
  header_read rest h k =
      let t = time_stamp / 1000000 in
      let low : le_value (le_bytes 4 t) ≡ t = le_value-le_bytes 4 t (omega arith) in
      (omega arith, rw low (ground arith), refl)
