-- ===== src/FakeCapture.antt =====
-- C/source/production/fakecapture.c and fakecapture.h: the stand-in for the camera's capture
-- library, which plays the files media/film080.jpg to media/film247.jpg in a cycle and sends motion
-- notifications for some of them. Built without SHORT_NUMBER_FRAME_SEQUENCE and NO_FAKE_MOTION.
pub mod Cycle
pub mod Sockets
use edaf55_project.Base.{
  ℕ, ◌+◌, ◌-◌, ◌*◌, ◌/◌, ◌%◌, ◌^◌, List, [], ◌∷◌, ◌++◌, Option, none, some, Bool, true, false, ◌&&◌,
  codes, length, take, ℤ, pos, negsuc, ltb, ◌==◌, if◌then◌else◌,
}
use mathlib.Core.Option
use edaf55_project.Text.{snprintf, format_long}
use edaf55_project.Socket.{Socket}
use edaf55_project.ServerCommon.{write_string}

abbrev pub start_frame : ℕ
start_frame = 80

abbrev pub num_frames : ℕ
num_frames = 247

abbrev pub filepath_length : ℕ
filepath_length = 100

abbrev pub frame_buf_sz : ℕ
frame_buf_sz = 100000

-- `struct _media_stream`
pub record MediaStream : Type 0 where
  pub frame_nr : ℕ

-- `struct _media_frame`: `bytes` is what `read` has put at the front of `data`.
pub record MediaFrame : Type 0 where
  pub sz : ℕ
  pub time : ℕ
  pub bytes : List ℕ

-- `capture_open_stream`: both parameters are ignored.
unfoldable pub capture_open_stream : MediaStream
capture_open_stream = record { frame_nr = start_frame }

-- `%03d` of a number below 1000.
abbrev pub three_digits : ℕ → List ℕ
three_digits n = (b'0' + n / 100) ∷ (b'0' + n / 10 % 10) ∷ (b'0' + n % 10) ∷ []

-- The name of the file that holds a frame.
unfoldable pub file_name : ℕ → List ℕ
file_name n =
    snprintf (filepath_length - 1) (codes "media/film" ++ (three_digits n ++ codes ".jpg"))

-- What the file system gives for a name: no file, one that cannot be read, or its bytes.
pub data File : Type 0 where
  missing : File
  unreadable : File
  contents : List ℕ → File

-- What a call of `capture_get_frame` leaves: the stream, the frame or NULL, and the number that it
-- has handed to `fake_motion_detect`, if it came so far.
pub record Captured : Type 0 where
  pub stream : MediaStream
  pub frame : Option MediaFrame
  pub detected : Option ℕ

-- `stream->frame_nr++` and the wrap behind it.
abbrev pub next_frame_nr : ℕ → ℕ
next_frame_nr n = if ltb num_frames (n + 1) then start_frame else n + 1

-- `res->time`, in nanoseconds. The source computes it as a `double`, which is exact below 2 ^ 53.
abbrev pub nanoseconds : ℕ → ℕ → ℕ
nanoseconds sec nsec = (sec * 10 ^ 9 + nsec) % 2 ^ 64

-- `read(fd, res->data, FRAME_BUF_SZ)` of a file's bytes.
unfoldable pub frame_of : ℕ → ℕ → List ℕ → MediaFrame
frame_of sec nsec d =
    let bytes = take frame_buf_sz d in
    record { sz = length bytes; time = nanoseconds sec nsec; bytes = bytes }

unfoldable pub captured : MediaStream → ℕ → ℕ → File → Captured
unfolding frame_of
captured s sec nsec missing = record { stream = s; frame = none; detected = none }
captured s sec nsec unreadable = record { stream = s; frame = none; detected = some s.frame_nr }
captured s sec nsec (contents d) = record {
  stream = s;
  frame = some (frame_of sec nsec d);
  detected = some s.frame_nr;
}

-- `capture_get_frame(stream)` over the files of a disk, at the time `sec`, `nsec` of the clock.
unfoldable pub capture_get_frame : (List ℕ → File) → ℕ → ℕ → MediaStream → Captured
unfolding captured
capture_get_frame disk sec nsec stream =
    captured (record stream { frame_nr = next_frame_nr stream.frame_nr }) sec nsec
      (disk (file_name stream.frame_nr))

-- The accessors take a pointer to a frame; `none` as the result is an access through NULL.
unfoldable pub capture_frame_data : Option MediaFrame → Option (List ℕ)
capture_frame_data none = none
capture_frame_data (some f) = some f.bytes

unfoldable pub capture_frame_size : Option MediaFrame → Option ℕ
capture_frame_size none = none
capture_frame_size (some f) = some f.sz

unfoldable pub capture_frame_timestamp : Option MediaFrame → ℕ
capture_frame_timestamp none = 0
capture_frame_timestamp (some f) = f.time

unfoldable pub capture_frame_height : Option MediaFrame → ℕ
capture_frame_height frame = 480

unfoldable pub capture_frame_width : Option MediaFrame → ℕ
capture_frame_width frame = 640

-- `fake_motion_detect(frame_nr)`: whether it sends a notification.
unfoldable pub fake_motion_detect : ℕ → Bool
fake_motion_detect frame_nr = ltb 86 frame_nr && ltb frame_nr 219 && frame_nr % 5 == 0

-- The message of `fake_motion_notify` at the time `now`.
unfoldable pub notify_message : ℤ → List ℕ
notify_message now = snprintf 100 (codes "GET /motion?Message=" ++ (format_long now ++ codes "\n"))

-- `fake_motion_notify()`: the message goes to a new connection, if `connect` succeeds.
unfoldable pub fake_motion_notify : (S : Socket) → Bool → S.State → ℤ → Option S.State
fake_motion_notify S false s now = some s
fake_motion_notify S true s now =
    Option.map (λ (r : ℤ × S.State). r.1) (write_string S s (notify_message now))
