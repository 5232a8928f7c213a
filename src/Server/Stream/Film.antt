-- ===== src/Server/Stream/Film.antt =====
-- Which frames the threads capture: those of the fake camera's film, one after the other.
use edaf55_project.Base.{
  ℕ, ◌+◌, ◌%◌, ◌≡◌, ◌∙◌, ap, List, [], ◌∷◌, ◌++◌, length, length-append, take, Option, none, some,
  arith,
}
use mathlib.Core.Path.{subst}
use edaf55_project.Memory.{◌>>=◌}
use edaf55_project.Socket.{Socket}
use edaf55_project.FakeCapture.{
  File, MediaFrame, MediaStream, contents, start_frame, frame_buf_sz, file_name, capture_get_frame,
  capture_open_stream, next_frame_nr,
}
use edaf55_project.FakeCapture.Cycle.{capture_get_frame-Holds, frame_nr-capture_get_frame}
use edaf55_project.Camera.{Camera, camera_get_frame}
use edaf55_project.CameraMonitor.{CameraMonitor}
use edaf55_project.Server.Frames.{try_get_frame}
use edaf55_project.Server.Stream.{
  Live, LiveStep, between, takes, sends, LiveReach, begun, then_step, begin_live,
}

-- The frame is of the file that the film has at place `k`.
abbrev pub IsShot : (List ℕ → File) → ℕ → MediaFrame → Type 0
IsShot disk k f =
    (d : List ℕ) × (disk (file_name (start_frame + k % 168)) ≡ contents d)
    × (f.bytes ≡ take frame_buf_sz d)

-- The frames are those of the film from place `k` on.
abbrev pub IsFilm : (List ℕ → File) → ℕ → List MediaFrame → Type 0
IsFilm disk k [] = Unit
IsFilm disk k (f ∷ fs) = IsShot disk k f × IsFilm disk (k + 1) fs

IsFilm-append :
    (disk : List ℕ → File) (k : ℕ) (fs : List MediaFrame) (f : MediaFrame)
    → IsFilm disk k fs
    → IsShot disk (k + length fs) f
    → IsFilm disk k (fs ++ (f ∷ []))
IsFilm-append disk k [] f h s = (subst (λ i. IsShot disk i f) (omega arith) s, tt)
IsFilm-append disk k (g ∷ fs) f (h, hs) s =
    (h, IsFilm-append disk (k + 1) fs f hs (subst (λ i. IsShot disk i f) (omega arith) s))

stream_kept :
    (o : Option (ℕ × CameraMonitor)) (c cam' : Camera) (code : ℕ) (m' : CameraMonitor)
    → (let got : Option (ℕ × CameraMonitor × Camera) = o >>= λ r. some (r.0, r.1, c) in
        got ≡ some (code, m', cam'))
    → cam' ≡ c
stream_kept none c cam' code m' h = cc
stream_kept (some r) c cam' code m' h = cc

-- The camera behind a call of `try_get_frame` that returns.
try_get_frame-capture_get_frame :
    (disk : List ℕ → File) (sec nsec : ℕ) (local : List ℕ) (code : ℕ) (cam cam' : Camera)
    (m m' : CameraMonitor)
    → try_get_frame disk sec nsec local cam m ≡ some (code, m', cam')
    → cam'.stream ≡ (capture_get_frame disk sec nsec cam.stream).stream
unfolding try_get_frame camera_get_frame
try_get_frame-capture_get_frame disk sec nsec local code cam cam' m m' runs =
    ap (λ (c : Camera). c.stream) (stream_kept _ _ _ _ _ runs)

-- The shots are the film from its start, and the stream stands behind them.
record IsPlayed (disk : List ℕ → File) (S : Socket) (c : Live S) : Type 0 where
  film : IsFilm disk 0 c.shots
  place : c.cam.stream.frame_nr ≡ start_frame + length c.shots % 168

takes-IsPlayed :
    (disk : List ℕ → File) (sec nsec : ℕ) (cam : Camera) (shots : List MediaFrame) (f : MediaFrame)
    → IsFilm disk 0 shots
    → cam.stream.frame_nr ≡ start_frame + length shots % 168
    → (capture_get_frame disk sec nsec cam.stream).frame ≡ some f
    → IsFilm disk 0 (shots ++ (f ∷ []))
      × ((capture_get_frame disk sec nsec cam.stream).stream.frame_nr
          ≡ start_frame + length (shots ++ (f ∷ [])) % 168)
takes-IsPlayed disk sec nsec cam shots f film place got =
    let (d, is_file, held) = capture_get_frame-Holds disk sec nsec cam.stream f got in
    (
      IsFilm-append disk 0 shots f film
          (d, ap (λ n. disk (file_name n)) (omega (arith, place)) ∙ is_file, held.bytes_eq),
      frame_nr-capture_get_frame disk sec nsec cam.stream
          ∙ ap next_frame_nr place
          ∙ ground (arith, length-append shots (f ∷ [])),
    )

LiveStep-IsPlayed :
    (disk : List ℕ → File) (S : Socket) {c d : Live S}
    → IsPlayed disk S c
    → LiveStep disk S c d
    → IsPlayed disk S d
LiveStep-IsPlayed disk S v (between st p o) = record { film = v.film; place = v.place }
LiveStep-IsPlayed disk S {c} v (takes sec nsec local f code m cam _ _ _ got runs) =
    let (film, place) = takes-IsPlayed disk sec nsec c.cam c.shots f v.film v.place got in
    let stream =
      try_get_frame-capture_get_frame disk sec nsec local code c.cam cam c.sys.sh.mon m runs in
    record { film = film; place = ap (λ (s : MediaStream). s.frame_nr) stream ∙ place }
LiveStep-IsPlayed disk S v (sends local code conn _ _ _ runs) = record {
  film = v.film;
  place = v.place;
}

LiveReach-IsPlayed :
    (disk : List ℕ → File) (S : Socket) {c d : Live S}
    → IsPlayed disk S c
    → LiveReach disk S c d
    → IsPlayed disk S d
LiveReach-IsPlayed disk S v begun = v
LiveReach-IsPlayed disk S v (then_step run st) =
    LiveStep-IsPlayed disk S (LiveReach-IsPlayed disk S v run) st

-- With a camera that was just opened, the frames that the threads capture are the film of the files
-- from number 80 to 247 and round again, in order and with none left out.
pub LiveReach-IsFilm :
    (disk : List ℕ → File) (S : Socket) (m : CameraMonitor) (cam : Camera) (conn : S.State)
    {c : Live S}
    → cam.stream ≡ capture_open_stream
    → LiveReach disk S (begin_live S m cam conn) c
    → IsFilm disk 0 c.shots
unfolding capture_open_stream
LiveReach-IsFilm disk S m cam conn opened run = (LiveReach-IsPlayed disk S fresh run).film
  where
    fresh : IsPlayed disk S (begin_live S m cam conn)
    fresh = record { film = tt; place = ap (λ (s : MediaStream). s.frame_nr) opened }
