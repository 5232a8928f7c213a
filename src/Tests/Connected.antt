-- ===== src/Tests/Connected.antt =====
-- The client's threads: a connection, a picture, and the end of the stream.
use edaf55_project.Base.{
  ℕ, ◌≡◌, refl, List, [], ◌++◌, take, replicate, true, arith, length-replicate, inr,
}
use edaf55_project.Server.Frames.Delivery.{packet_of}
use edaf55_project.Server.Stream.Relay.{Relay, RelayReach, empty_relay, held_list}
use edaf55_project.PictureReciever.{maximum_picture_size, receive, picture}
use edaf55_project.PictureReciever.Pictures.{receive_into-packet_of}
use edaf55_project.FakeCapture.{frame_of}
use edaf55_project.PictureReciever.Ended.{receive-ended}
use edaf55_project.PictureReciever.Delivers.{picture_of, pictures_of}
use edaf55_project.Connection.{
  Client, Conn, ClientReach, at_begin, after, by_conn, by_recv, enters, connects, registers,
  activates, goes_on, sees, gets, receives, breaks, fails, watching, begin_client, set_socket,
  set_active,
}
use edaf55_project.Connection.Tied.{HasSocket, reading-watching}
use edaf55_project.Connection.Lost.{Circles, reading-Circles}
use edaf55_project.Connection.Again.{Recovers, ClientReach-Recovers}
use edaf55_project.Connection.Delivers.{ClientReach-LiveReach}
use edaf55_project.Tests.Reading.{at_once, at_once-IsPrompt}
use edaf55_project.Tests.Pictures.{zeros-length}
use edaf55_project.Tests.Stream.{line, line-TakesAll, disk, monitor, camera, shot, sent_run}

abbrev no_conns : ℕ → Conn (List ℕ)
no_conns n = record { start = []; stream = []; pictures = []; closed = true }

-- No read fails.
abbrev Never : ℕ → Type 0
Never n = ⊥

-- The receiver has the stream of the first socket.
reading_run :
    (Breaks : ℕ → Type 0)
    → (c : Client (List ℕ)) × ClientReach at_once Breaks (begin_client no_conns) c
unfolding set_active set_socket
reading_run Breaks = (
  _,
  after
      (after
        (after
          (after
            (after
              (after (after at_begin (by_conn (enters refl))) (by_conn (connects (packet_of shot))))
              (by_conn registers))
            (by_conn activates))
          (by_recv (goes_on refl)))
        (by_recv (sees refl)))
      (by_recv (gets {n = 0} refl)),
)

reading-watching_example :
    HasSocket ((reading_run Never).0).world 0
    × (((reading_run Never).0).world.net.is_active ≡ true)
    × (((reading_run Never).0).conn ≡ watching)
unfolding reading_run set_active set_socket
reading-watching_example =
    reading-watching {I = at_once} {Breaks = Never} {conns = no_conns} {c = (reading_run Never).0}
      {n = 0} (reading_run Never).1 refl

shot_received :
    (t : List ℕ) × (receive at_once (packet_of shot) ≡ picture (picture_of shot) t) × (t ≡ [])
unfolding receive frame_of
shot_received =
    receive_into-packet_of at_once at_once-IsPrompt (packet_of shot)
      (replicate maximum_picture_size 65) shot [] (length-replicate {A = ℕ} maximum_picture_size 65)
      refl (omega arith) (omega arith) refl

-- It has read the picture.
read_run : (c : Client (List ℕ)) × ClientReach at_once Never (begin_client no_conns) c
unfolding reading_run set_socket set_active
read_run = (_, after (reading_run Never).1 (by_recv (receives {n = 0} refl (shot_received.1))))

-- It has found the end, and is at its test again.
ended_run : (c : Client (List ℕ)) × ClientReach at_once Never (read_run.0) c
unfolding read_run reading_run set_socket set_active
ended_run = (
  _,
  after at_begin (
      by_recv (
        breaks {n = 0} refl
          (receive-ended at_once at_once-IsPrompt.stream shot_received.0 shot_received.2).1)),
)

reading-Circles_example :
    ((ended_run.0).world.made ≡ (read_run.0).world.made)
    × (((ended_run.0).world.conns 0).pictures ≡ ((read_run.0).world.conns 0).pictures)
    × ((ended_run.0).conn ≡ watching)
    × Circles 0 (ended_run.0).recv
unfolding read_run reading_run set_socket set_active
reading-Circles_example =
    reading-Circles {I = at_once} {Breaks = Never} {conns = no_conns} {c = read_run.0}
      {d = ended_run.0} 0 at_once-IsPrompt.stream (λ b. b) read_run.1 refl shot_received.2
      ended_run.1

ClientReach-LiveReach_example :
    (r : Relay) × (k : ℕ) × RelayReach empty_relay r
    × ((sent_run.0).shots ≡ r.delivered ++ held_list r.held)
    × (((read_run.0).world.conns 0).pictures ≡ take k (pictures_of r.delivered))
unfolding sent_run read_run reading_run set_socket set_active
ClientReach-LiveReach_example =
    ClientReach-LiveReach disk line monitor camera [] at_once {Breaks = Never} {conns = no_conns}
      {d = read_run.0} 0 line-TakesAll refl zeros-length sent_run.1 (omega arith, tt)
      at_once-IsPrompt read_run.1 (omega arith) refl

-- Every connection can fail, and the first one has failed.
failed_run : (c : Client (List ℕ)) × ClientReach at_once (λ n. Unit) (begin_client no_conns) c
unfolding reading_run set_socket set_active
failed_run = (_, after (reading_run (λ n. Unit)).1 (by_recv (fails {n = 0} (inr tt))))

ClientReach-Recovers_example : Recovers at_once (λ n. Unit) (failed_run.0)
unfolding failed_run reading_run set_socket set_active
ClientReach-Recovers_example = ClientReach-Recovers at_once (λ n. Unit) [] failed_run.1 refl refl
