-- ===== src/FakeCapture/Cycle.antt =====
-- The order in which the stream plays its files, and what its frames hold.
use edaf55_project.Base.{
  ℕ, zero, suc, ◌+◌, ◌%◌, ◌≤◌, ◌<◌, ◌≡◌, refl, ◌∙◌, ap, List, some, length, length-take, arith,
  ◌++◌, codes, take,
}
use mathlib.Core.Option.{some-injective}
use edaf55_project.Text.Print.{snprintf_fits}
use edaf55_project.FakeCapture.{
  MediaStream, MediaFrame, File, missing, unreadable, contents, start_frame, num_frames,
  frame_buf_sz, capture_open_stream, capture_get_frame, captured, frame_of, file_name, three_digits,
  next_frame_nr,
}

-- The number of the frame that comes next stays in the range of the files.
pub record IsPlaying (s : MediaStream) : Type 0 where
  pub from_start : start_frame ≤ s.frame_nr
  pub to_end : s.frame_nr ≤ num_frames

stream_captured : (s : MediaStream) (sec nsec : ℕ) (f : File) → (captured s sec nsec f).stream ≡ s
unfolding captured
stream_captured s sec nsec missing = refl
stream_captured s sec nsec unreadable = refl
stream_captured s sec nsec (contents d) = refl

pub frame_nr-capture_get_frame :
    (disk : List ℕ → File) (sec nsec : ℕ) (s : MediaStream)
    → (capture_get_frame disk sec nsec s).stream.frame_nr ≡ next_frame_nr s.frame_nr
unfolding capture_get_frame
frame_nr-capture_get_frame disk sec nsec s =
    ap (λ (t : MediaStream). t.frame_nr) (stream_captured _ sec nsec _)

-- The stream after `k` calls. `clock k` is the time of call `k`, and the files may change between
-- the calls.
pub stream_after : (ℕ → List ℕ → File) → (ℕ → ℕ × ℕ) → ℕ → MediaStream
stream_after disk clock zero = capture_open_stream
stream_after disk clock (suc k) =
    (capture_get_frame (disk k) (clock k).0 (clock k).1 (stream_after disk clock k)).stream

-- Whatever the files and the clock are, the numbers go from 80 to 247 and round again: call `k` is
-- for the file with the number `80 + k % 168`.
pub frame_nr-stream_after :
    (disk : ℕ → List ℕ → File) (clock : ℕ → ℕ × ℕ) (k : ℕ)
    → (stream_after disk clock k).frame_nr ≡ start_frame + k % 168
unfolding stream_after
frame_nr-stream_after disk clock zero = unfold capture_open_stream in refl
frame_nr-stream_after disk clock (suc k) =
    frame_nr-capture_get_frame (disk k) _ _ (stream_after disk clock k)
    ∙ ap next_frame_nr (frame_nr-stream_after disk clock k)
    ∙ ground arith

length-three_digits : (n : ℕ) → length (codes "media/film" ++ (three_digits n ++ codes ".jpg")) ≡ 17
length-three_digits n = refl

file_name-fits : (n : ℕ) → file_name n ≡ codes "media/film" ++ (three_digits n ++ codes ".jpg")
unfolding file_name
file_name-fits n = snprintf_fits 99 _ (omega (arith, length-three_digits n))

-- Two numbers below 1000 never share a file name.
pub file_name_injective : (m n : ℕ) → m < 1000 → n < 1000 → file_name m ≡ file_name n → m ≡ n
file_name_injective m n hm hn h =
    let e : codes "media/film" ++ (three_digits m ++ codes ".jpg")
        ≡ codes "media/film" ++ (three_digits n ++ codes ".jpg") =
      rw (← file_name-fits m, ← file_name-fits n) h in
    ground arith

-- What a frame holds of its file.
pub record Holds (f : MediaFrame) (d : List ℕ) : Type 0 where
  pub bytes_eq : f.bytes ≡ take frame_buf_sz d
  pub sz_eq : f.sz ≡ length f.bytes
  pub fits : f.sz ≤ frame_buf_sz

frame_of-Holds : (sec nsec : ℕ) (d : List ℕ) → Holds (frame_of sec nsec d) d
unfolding frame_of
frame_of-Holds sec nsec d = record {
  bytes_eq = refl;
  sz_eq = refl;
  fits = omega (arith, length-take frame_buf_sz d);
}

captured_frame :
    (s : MediaStream) (sec nsec : ℕ) (file : File) (f : MediaFrame)
    → (captured s sec nsec file).frame ≡ some f
    → (d : List ℕ) × (file ≡ contents d) × Holds f d
captured_frame s sec nsec missing f h = unfold captured in cc
captured_frame s sec nsec unreadable f h = unfold captured in cc
captured_frame s sec nsec (contents d) f h =
    let e : frame_of sec nsec d ≡ f = unfold captured in some-injective _ _ h in
    (d, refl, rw e at (frame_of-Holds sec nsec d))

-- A call gives a frame only if the file of its number can be read. The frame's bytes are the first
-- 100000 of the file, and its size is their number.
pub capture_get_frame-Holds :
    (disk : List ℕ → File) (sec nsec : ℕ) (s : MediaStream) (f : MediaFrame)
    → (capture_get_frame disk sec nsec s).frame ≡ some f
    → (d : List ℕ) × (disk (file_name s.frame_nr) ≡ contents d) × Holds f d
unfolding capture_get_frame
capture_get_frame-Holds disk sec nsec s f h =
    captured_frame _ sec nsec (disk (file_name s.frame_nr)) f h
