-- ===== src/Tests/Stream.antt =====
-- The picture server's run with one frame taken and sent, and the client that reads it.
use edaf55_project.Base.{
  ℕ, ◌≡◌, refl, List, [], ◌++◌, take, drop, length, pos, true, false, arith, codes, take-length,
}
use edaf55_project.Socket.{Socket}
use edaf55_project.FakeCapture.{
  File, MediaFrame, contents, capture_get_frame, capture_open_stream, frame_of,
}
use edaf55_project.Camera.{Camera}
use edaf55_project.CameraMonitor.{CameraMonitor, get_pic_take_send, flip_pic_take_send}
use edaf55_project.Server.Frames.{try_send_frame}
use edaf55_project.Server.Frames.Taking.{try_get_frame-taken}
use edaf55_project.Server.Frames.Delivery.{IsBuffer, saved, packet_of, send_saved, saved-IsBuffer}
use edaf55_project.Server.Tasks.{enter, lock, go, flip, unlock, broadcast, by_taker, by_sender}
use edaf55_project.Server.Stream.{
  Live, LiveReach, begun, then_step, between, takes, sends, begin_live,
}
use edaf55_project.Server.Stream.Relay.{
  Relay, RelayReach, empty_relay, accepted, packets, held_list,
}
use edaf55_project.Server.Stream.Effects.{TakesAll}
use edaf55_project.Server.Stream.Refines.{LiveReach-RelayReach}
use edaf55_project.Server.Stream.Film.{IsFilm, LiveReach-IsFilm}
use edaf55_project.PictureReciever.{receive_pictures}
use edaf55_project.PictureReciever.Delivers.{pictures_of, receive_pictures-LiveReach}
use edaf55_project.Tests.Reading.{at_once, at_once-IsPrompt}
use edaf55_project.Tests.Pictures.{zeros, zeros-length}

-- A socket that takes all it is offered; its state is what has gone out.
abbrev pub line : Socket
line = record { State = List ℕ; send = λ s d. (pos (length d), s ++ d); wire = λ s. s }

pub line-TakesAll : TakesAll line
line-TakesAll = record {
  lawful = record {
    bounded = λ s t d k h. ground arith;
    progress = λ s t d k h hd. ground arith;
    delivers = λ s t d k h. ground (arith, take-length d);
    fails = λ s t d e h. cc;
  };
  all_of_it = λ s d. refl;
}

abbrev pub disk : List ℕ → File
disk n = contents (codes "jpg")

abbrev pub monitor : CameraMonitor
monitor = record {
  pic_packet = zeros;
  mode = pos 0;
  pic_taken = false;
  pic_sent = true;
  pic_take_send = 0;
  connfd = pos 4;
  connmodefd = pos 5;
  packet_sz = pos 0;
  cam = true;
}

abbrev pub camera : Camera
camera = record { frame_nbr = 0; stream = capture_open_stream }

abbrev pub shot : MediaFrame
shot = frame_of 1 2 (codes "jpg")

-- The taker has captured a frame.
taken_run : (c : Live line) × LiveReach disk line (begin_live line monitor camera []) c
unfolding get_pic_take_send capture_get_frame capture_open_stream frame_of try_send_frame
taken_run = (
  _,
  then_step
      (then_step
        (then_step (then_step begun (between (by_taker (enter refl)) refl refl))
          (between (by_taker (lock refl)) refl refl))
        (between (by_taker (go refl)) refl refl))
      (takes 1 2 zeros shot _ _ _ zeros-length refl refl refl
        (try_get_frame-taken disk 1 2 zeros camera monitor zeros-length zeros-length)),
)

-- The sender has sent it.
unfoldable pub sent_run :
    (c : Live line) × LiveReach disk line (begin_live line monitor camera []) c
unfolding taken_run flip_pic_take_send get_pic_take_send capture_get_frame capture_open_stream
    frame_of try_send_frame
sent_run =
    let m : CameraMonitor = saved shot (drop 13 zeros) monitor in
    let whole : IsBuffer m.pic_packet =
      saved-IsBuffer zeros shot monitor zeros-length refl (omega arith) in
    (
      _,
      then_step
          (then_step
            (then_step
              (then_step
                (then_step
                  (then_step (then_step taken_run.1 (between (by_taker flip) refl refl))
                    (between (by_taker unlock) refl refl))
                  (between (by_taker broadcast) refl refl))
                (between (by_sender (enter refl)) refl refl))
              (between (by_sender (lock refl)) refl refl))
            (between (by_sender (go refl)) refl refl))
          (sends zeros 0 (packet_of shot) zeros-length refl refl
            (send_saved line line-TakesAll.lawful zeros (drop 13 zeros) shot
              (record monitor { pic_take_send = 1 }) [] (packet_of shot) zeros-length whole refl
              (omega arith) refl).0),
    )

LiveReach-RelayReach_example :
    (r : Relay) × RelayReach empty_relay r
    × ((sent_run.0).conn ≡ [] ++ packets r.delivered)
    × ((sent_run.0).shots ≡ accepted r)
LiveReach-RelayReach_example =
    LiveReach-RelayReach disk line monitor camera [] line-TakesAll refl zeros-length sent_run.1

LiveReach-IsFilm_example : IsFilm disk 0 (sent_run.0).shots
LiveReach-IsFilm_example = LiveReach-IsFilm disk line monitor camera [] refl sent_run.1

receive_pictures-LiveReach_example :
    (r : Relay) × RelayReach empty_relay r
    × ((sent_run.0).shots ≡ r.delivered ++ held_list r.held)
    × (receive_pictures at_once 2 (packet_of shot) ≡ take 2 (pictures_of r.delivered))
unfolding sent_run
receive_pictures-LiveReach_example =
    receive_pictures-LiveReach disk line monitor camera [] at_once (packet_of shot) 2 line-TakesAll
      refl zeros-length sent_run.1 (omega arith, tt) at_once-IsPrompt refl
