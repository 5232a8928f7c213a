-- ===== src/Connection/Delivers.antt =====
-- The threads of the client behind those of the server, from the camera's frames to the pictures
-- that the client's monitor is given.
use edaf55_project.Base.{ℕ, ◌≡◌, ◌<◌, ◌∙◌, ◌++◌, List, take}
use edaf55_project.Socket.{Socket}
use edaf55_project.FakeCapture.{File}
use edaf55_project.Camera.{Camera}
use edaf55_project.CameraMonitor.{CameraMonitor}
use edaf55_project.Server.Frames.Delivery.{IsBuffer}
use edaf55_project.Server.Stream.{Live, LiveReach, begin_live}
use edaf55_project.Server.Stream.Relay.{Relay, RelayReach, empty_relay, held_list}
use edaf55_project.Server.Stream.Effects.{TakesAll}
use edaf55_project.PictureReciever.{InputStream}
use edaf55_project.PictureReciever.Pictures.{IsPrompt}
use edaf55_project.PictureReciever.Delivers.{AllHaveTime, pictures_of, receive_pictures-LiveReach}
use edaf55_project.Connection.{Client, ClientReach, Conn, begin_client}
use edaf55_project.Connection.Reads.{ClientReach-receive_pictures}

-- Server and client, all their threads together: the pictures that a socket of the client has given
-- to its monitor are the first ones of the frames that the server has delivered over it, with their
-- bytes and times and in order, whatever other connections the client has made or lost. The
-- server's socket takes all it is offered, its monitor is as `init` leaves it, the arrays have the
-- program's size, the times are below 2 ^ 31 milliseconds, and the client's stream gives what the
-- server has sent, with a header's bytes in one read.
pub ClientReach-LiveReach :
    (disk : List ℕ → File) (S : Socket) (m : CameraMonitor) (cam : Camera) (conn : S.State)
    {c : Live S} (I : InputStream) {Breaks : ℕ → Type 0} {conns : ℕ → Conn I.State}
    {d : Client I.State} (n : ℕ)
    → TakesAll S
    → m.pic_take_send ≡ 0
    → IsBuffer m.pic_packet
    → LiveReach disk S (begin_live S m cam conn) c
    → AllHaveTime c.shots
    → IsPrompt I
    → ClientReach I Breaks (begin_client conns) d
    → n < d.world.made
    → S.wire c.conn ≡ S.wire conn ++ I.remaining (d.world.conns n).start
    → (r : Relay) × (k : ℕ) × RelayReach empty_relay r
      × (c.shots ≡ r.delivered ++ held_list r.held)
      × ((d.world.conns n).pictures ≡ take k (pictures_of r.delivered))
ClientReach-LiveReach disk S m cam conn I {d = d} n T idle hm run soon P client made heard =
    let (k, reads) = ClientReach-receive_pictures n P.stream client made in
    let (r, reach, captured, read) =
      receive_pictures-LiveReach disk S m cam conn I (d.world.conns n).start k T idle hm run soon P
        heard in
    (r, k, reach, captured, reads ∙ read)
