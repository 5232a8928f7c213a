-- ===== src/Connection.antt =====
-- edaf55_project_java/src/networking: NetMonitor.java, ClientConnectionThread.java and
-- ClientShutdownThread.java, and what `run` of PictureReciever.java does around the reading: the
-- threads that PictureNetStarter.java starts for the pictures of a camera.
pub mod Tied
pub mod Lost
pub mod Ends
pub mod Again
pub mod Reads
pub mod Delivers
use edaf55_project.Base.{
  ℕ, suc, ◌≡◌, List, [], ◌∷◌, ◌++◌, Option, none, some, Bool, true, false, ◌==◌, if◌then◌else◌, ◌⊎◌,
}
use edaf55_project.PictureReciever.{InputStream, Picture, picture, broke, threw, receive}

-- The fields of `NetMonitor`; a socket is its number.
pub record NetMonitor : Type 0 where
  pub socket : Option ℕ
  pub is_active : Bool
  pub is_shutdown : Bool

abbrev pub new_net : NetMonitor
new_net = record { socket = none; is_active = false; is_shutdown = false }

-- `setSocket(s)`
unfoldable pub set_socket : ℕ → NetMonitor → NetMonitor
set_socket s m = record m { socket = some s }

-- `setActive(active)`
unfoldable pub set_active : Bool → NetMonitor → NetMonitor
set_active active m = record m { is_active = active }

-- `shutdown()`
unfoldable pub shut_down : NetMonitor → NetMonitor
shut_down m = record m { is_active = false; is_shutdown = true }

-- A socket: its stream as it was made and now, the pictures from it that were given to `putPicture`,
-- and whether it is closed.
pub record Conn (S : Type 0) : Type 0 where
  pub start : S
  pub stream : S
  pub pictures : List Picture
  pub closed : Bool

-- What the threads share; the sockets made so far are those below `made`.
pub record World (S : Type 0) : Type 0 where
  pub net : NetMonitor
  pub made : ℕ
  pub conns : ℕ → Conn S

abbrev pub with_conn : {S : Type 0} → ℕ → Conn S → (ℕ → Conn S) → ℕ → Conn S
with_conn n v conns k = if k == n then v else conns k

-- `if (socket != null) socket.close();`
unfoldable pub close_socket : {S : Type 0} → Option ℕ → (ℕ → Conn S) → ℕ → Conn S
close_socket none conns = conns
close_socket (some n) conns = with_conn n (record (conns n) { closed = true }) conns

-- Where `ClientConnectionThread` is: at its test; connecting; before `setSocket`; before
-- `setActive(true)`; in `waitUntilNotActive`; before it closes the socket; at its end.
pub data ConnPc : Type 0 where
  conn_head connecting activating watching closing conn_ended : ConnPc
  registering : ℕ → ConnPc

-- Where `PictureReciever` is: at its test; in `waitUntilActive`; before `getSocket`; in the inner
-- loop, with the stream of a socket; at its end.
pub data RecvPc : Type 0 where
  recv_head awaiting getting recv_ended : RecvPc
  reading : ℕ → RecvPc

-- A step of `ClientConnectionThread`, which nothing interrupts. The network decides whether a
-- connection is made, and which stream it gives.
pub data ConnMove {S : Type 0} (w : World S) : ConnPc → World S → ConnPc → Type 0 where
  enters : w.net.is_shutdown ≡ false → ConnMove w conn_head w connecting
  leaves : w.net.is_shutdown ≡ true → ConnMove w conn_head w conn_ended
  connects :
      (s : S)
      → ConnMove w connecting
          (record w {
            made = suc w.made;
            conns =
                with_conn w.made
                  (record { start = s; stream = s; pictures = []; closed = false })
                  w.conns;
          })
          (registering w.made)
  unknown_host : ConnMove w connecting w closing
  refused : ConnMove w connecting (record w { net = set_active false w.net }) closing
  not_configured :
      {n : ℕ} → ConnMove w (registering n) (record w { net = set_active false w.net }) closing
  registers :
      {n : ℕ} → ConnMove w (registering n) (record w { net = set_socket n w.net }) activating
  activates : ConnMove w activating (record w { net = set_active true w.net }) watching
  resumes : w.net.is_active ≡ false → ConnMove w watching w closing
  closes : ConnMove w closing (record w { conns = close_socket w.net.socket w.conns }) conn_head

-- The two ends of a read that throws an IOException: the socket is closed, or the connection fails.
abbrev pub CanFail : {S : Type 0} → (ℕ → Type 0) → World S → ℕ → Type 0
CanFail Breaks w n = ((w.conns n).closed ≡ true) ⊎ Breaks n

-- A step of `PictureReciever`; a round of its inner loop is one.
pub data RecvMove (I : InputStream) (Breaks : ℕ → Type 0) (w : World I.State)
    : RecvPc → World I.State → RecvPc → Type 0 where
  goes_on : w.net.is_shutdown ≡ false → RecvMove I Breaks w recv_head w awaiting
  stops : w.net.is_shutdown ≡ true → RecvMove I Breaks w recv_head w recv_ended
  sees : w.net.is_active ≡ true → RecvMove I Breaks w awaiting w getting
  gets : {n : ℕ} → w.net.socket ≡ some n → RecvMove I Breaks w getting w (reading n)
  no_socket :
      w.net.socket ≡ none
      → RecvMove I Breaks w getting (record w { net = shut_down w.net }) recv_ended
  receives :
      {n : ℕ} {p : Picture} {t : I.State}
      → (w.conns n).closed ≡ false
      → receive I (w.conns n).stream ≡ picture p t
      → RecvMove I Breaks w
          (reading n)
          (record w {
            conns =
                with_conn n
                  (record (w.conns n) { stream = t; pictures = (w.conns n).pictures ++ (p ∷ []) })
                  w.conns;
          })
          (reading n)
  breaks :
      {n : ℕ} {t : I.State}
      → (w.conns n).closed ≡ false
      → receive I (w.conns n).stream ≡ broke t
      → RecvMove I Breaks w
          (reading n)
          (record w { conns = with_conn n (record (w.conns n) { stream = t }) w.conns })
          recv_head
  throws :
      {n : ℕ}
      → (w.conns n).closed ≡ false
      → receive I (w.conns n).stream ≡ threw
      → RecvMove I Breaks w (reading n) (record w { net = shut_down w.net }) recv_ended
  fails :
      {n : ℕ}
      → CanFail Breaks w n
      → RecvMove I Breaks w (reading n) (record w { net = set_active false w.net }) recv_head

-- The three threads; `shut` says that `ClientShutdownThread` has ended.
pub record Client (S : Type 0) : Type 0 where
  pub world : World S
  pub conn : ConnPc
  pub recv : RecvPc
  pub shut : Bool

pub data ClientStep (I : InputStream) (Breaks : ℕ → Type 0) (c : Client I.State)
    : Client I.State → Type 0 where
  by_conn :
      {w : World I.State} {p : ConnPc}
      → ConnMove c.world c.conn w p
      → ClientStep I Breaks c (record c { world = w; conn = p })
  by_recv :
      {w : World I.State} {p : RecvPc}
      → RecvMove I Breaks c.world c.recv w p
      → ClientStep I Breaks c (record c { world = w; recv = p })
  shuts :
      c.shut ≡ false
      → c.world.net.is_shutdown ≡ true
      → ClientStep I Breaks c (record c {
        world = record (c.world) { conns = close_socket c.world.net.socket c.world.conns };
        shut = true;
      })

pub data ClientReach (I : InputStream) (Breaks : ℕ → Type 0) (c : Client I.State)
    : Client I.State → Type 0 where
  at_begin : ClientReach I Breaks c c
  after :
      {d e : Client I.State}
      → ClientReach I Breaks c d
      → ClientStep I Breaks d e
      → ClientReach I Breaks c e

-- The threads have been started, and no socket is made.
abbrev pub begin_client : {S : Type 0} → (ℕ → Conn S) → Client S
begin_client conns = record {
  world = record { net = new_net; made = 0; conns = conns };
  conn = conn_head;
  recv = recv_head;
  shut = false;
}
