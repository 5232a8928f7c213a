-- ===== src/PictureReciever/Delivers.antt =====
-- The client behind the server: the pictures that the client reads from what the server has sent.
use edaf55_project.Base.{
  ℕ, zero, suc, ◌/◌, ◌^◌, ◌≡◌, ◌<◌, ◌∙◌, refl, ap, sym, List, [], ◌∷◌, ◌++◌, length, take, drop,
  replicate, drop-append, pos, length-replicate,
}
use edaf55_project.Socket.{Socket}
use edaf55_project.FakeCapture.{File, MediaFrame}
use edaf55_project.Camera.{Camera}
use edaf55_project.CameraMonitor.{CameraMonitor}
use edaf55_project.Server.Frames.Delivery.{IsBuffer}
use edaf55_project.Server.Tasks
use edaf55_project.Server.Stream.{Live, LiveReach, begin_live}
use edaf55_project.Server.Stream.Relay.{Relay, RelayReach, empty_relay, packets, held_list}
use edaf55_project.Server.Stream.Shows.{ShowsAll}
use edaf55_project.Server.Stream.Effects.{TakesAll}
use edaf55_project.Server.Stream.Refines.{LiveReach-Matches}
use edaf55_project.PictureReciever.{
  InputStream, Picture, receive, receive_pictures, maximum_picture_size, put,
}
use edaf55_project.PictureReciever.Ended.{receive-ended}
use edaf55_project.PictureReciever.Pictures.{IsPrompt, receive_into-packet_of}

-- The client's picture of a frame: its bytes, and its time in milliseconds.
abbrev pub picture_of : MediaFrame → Picture
picture_of f = record { image = f.bytes; ts = pos (f.time / 1000000) }

abbrev pub pictures_of : List MediaFrame → List Picture
pictures_of [] = []
pictures_of (f ∷ fs) = picture_of f ∷ pictures_of fs

-- The client's `int` can hold the time stamp: its milliseconds are below 2 ^ 31.
abbrev pub HasTime : MediaFrame → Type 0
HasTime f = f.time / 1000000 < 2 ^ 31

abbrev pub AllHaveTime : List MediaFrame → Type 0
AllHaveTime [] = Unit
AllHaveTime (f ∷ fs) = HasTime f × AllHaveTime fs

AllHaveTime-append : (fs gs : List MediaFrame) → AllHaveTime (fs ++ gs) → AllHaveTime fs
AllHaveTime-append [] gs h = tt
AllHaveTime-append (f ∷ fs) gs (a, h) = (a, AllHaveTime-append fs gs h)

module _ (I : InputStream) (P : IsPrompt I) where
  -- The client reads the packets of frames, one picture a round, and stops behind the last.
  receive_pictures-packets :
      (rounds : ℕ) (s : I.State) (ps : List Tasks.Picture) (fs : List MediaFrame)
      → ShowsAll ps fs
      → AllHaveTime fs
      → I.remaining s ≡ packets fs
      → receive_pictures I rounds s ≡ take rounds (pictures_of fs)
  unfolding receive_pictures receive
  receive_pictures-packets zero s ps fs h soon there = refl
  receive_pictures-packets (suc rounds) s [] [] h soon there =
      ap (put I (receive_pictures I rounds)) (receive-ended I P.stream s there).1
  receive_pictures-packets (suc rounds) s (p ∷ ps) (f ∷ fs) (shown, h) (now, soon) there =
      let (t, got, left) =
        receive_into-packet_of I P s (replicate maximum_picture_size 65) f (packets fs)
          (length-replicate {A = ℕ} maximum_picture_size 65) shown.whole shown.fits now there in
      ap (put I (receive_pictures I rounds)) got
      ∙ ap (λ ps. picture_of f ∷ ps) (receive_pictures-packets rounds t ps fs h soon left)
  receive_pictures-packets (suc rounds) s [] (f ∷ fs) h soon there = elim h [ ]
  receive_pictures-packets (suc rounds) s (p ∷ ps) [] h soon there = elim h [ ]

-- Server and client together: of what the server's threads have sent over a connection, the client
-- reads the delivered frames, byte by byte and with their times, in order, with none
-- lost or doubled: they are all the captured frames but the one that is not sent yet, if any. The
-- socket takes all it is offered, the monitor is as `init` leaves it, the arrays have the program's
-- size, the times are below 2 ^ 31 milliseconds, and the client's stream gives what the server has
-- sent, with a header's bytes in one read.
pub receive_pictures-LiveReach :
    (disk : List ℕ → File) (S : Socket) (m : CameraMonitor) (cam : Camera) (conn : S.State)
    {c : Live S} (I : InputStream) (s : I.State) (rounds : ℕ)
    → TakesAll S
    → m.pic_take_send ≡ 0
    → IsBuffer m.pic_packet
    → LiveReach disk S (begin_live S m cam conn) c
    → AllHaveTime c.shots
    → IsPrompt I
    → S.wire c.conn ≡ S.wire conn ++ I.remaining s
    → (r : Relay) × RelayReach empty_relay r
      × (c.shots ≡ r.delivered ++ held_list r.held)
      × (receive_pictures I rounds s ≡ take rounds (pictures_of r.delivered))
receive_pictures-LiveReach disk S m cam conn {c} I s rounds T idle hm run soon P heard =
    let (r, reach, v) = LiveReach-Matches disk S m cam conn T idle hm run in
    let there : I.remaining s ≡ packets r.delivered =
      sym (drop-append (S.wire conn) (I.remaining s))
      ∙ ap (drop (length (S.wire conn))) (sym heard ∙ v.wired)
      ∙ drop-append (S.wire conn) (packets r.delivered) in
    let times : AllHaveTime r.delivered =
      AllHaveTime-append r.delivered (held_list r.held) (rw v.captured at soon) in
    (
      r,
      reach,
      v.captured,
      receive_pictures-packets I P rounds s c.sys.sh.out r.delivered v.out_shown times there,
    )
