-- ===== src/Connection/Again.antt =====
-- ClientConnectionThread.java: connecting again behind an IOException.
use edaf55_project.Base.{ℕ, ◌≡◌, suc, refl, ap, [], Bool, true, false}
use edaf55_project.PictureReciever.{InputStream}
use edaf55_project.Connection.{
  World, Conn, ConnPc, conn_head, connecting, activating, watching, closing, conn_ended,
  registering, RecvPc, recv_head, awaiting, getting, recv_ended, reading, enters, connects,
  registers, activates, resumes, closes, goes_on, sees, gets, Client, ClientStep, by_conn, by_recv,
  ClientReach, at_begin, after, begin_client, set_socket, set_active, close_socket, with_conn,
}
use edaf55_project.Connection.Tied.{
  HasSocket, IsAway, away_head, away_waiting, away_ended, Tied, on, off, reach-Tied, with_conn-same,
}
use edaf55_project.Connection.Ends.{ConnEnds, RecvEnds, lasts-RecvEnds, reach-Ends}

abbrev at_places : {S : Type 0} → World S → ConnPc → RecvPc → Bool → Client S
at_places w p r b = record { world = w; conn = p; recv = r; shut = b }

module _ (I : InputStream) (Breaks : ℕ → Type 0) where
  reach-append :
      {c d e : Client I.State}
      → ClientReach I Breaks c d
      → ClientReach I Breaks d e
      → ClientReach I Breaks c e
  reach-append run at_begin = run
  reach-append run (after more move) = after (reach-append run more) move

  -- From there the receiver can come to read an open socket.
  abbrev pub Recovers : Client I.State → Type 0
  Recovers c =
      (d : Client I.State) × (n : ℕ) × ClientReach I Breaks c d
      × (d.recv ≡ reading n)
      × ((d.world.conns n).closed ≡ false)

  step-Recovers : {c d : Client I.State} → ClientStep I Breaks c d → Recovers d → Recovers c
  step-Recovers move (e, n, run, at, opened) =
      (e, n, reach-append (after at_begin move) run, at, opened)

  awaiting-Recovers :
      (w : World I.State) (b : Bool) (n : ℕ)
      → w.net.is_active ≡ true
      → HasSocket w n
      → Recovers (at_places w watching awaiting b)
  awaiting-Recovers w b n active (socket, opened, live) = step-Recovers (by_recv (sees active)) (
      step-Recovers (by_recv (gets {n = n} socket))
        (at_places w watching (reading n) b, n, at_begin, refl, opened))

  watching-Recovers :
      (w : World I.State) (r : RecvPc) (b : Bool) (n : ℕ)
      → IsAway r
      → RecvEnds w r
      → w.net.is_active ≡ true
      → HasSocket w n
      → Recovers (at_places w watching r b)
  watching-Recovers w recv_head b n away_head ends active (socket, opened, live) =
      step-Recovers (by_recv (goes_on live)) (awaiting-Recovers w b n active (socket, opened, live))
  watching-Recovers w awaiting b n away_waiting ends active has = awaiting-Recovers w b n active has
  watching-Recovers w getting b n away ends active has = elim away [ ]
  watching-Recovers w (reading k) b n away ends active has = elim away [ ]
  watching-Recovers w recv_ended b n away_ended ends active (socket, opened, live) =
      absurd (cc (ends, live))

  activating-Recovers :
      (w : World I.State) (r : RecvPc) (b : Bool) (n : ℕ)
      → IsAway r
      → RecvEnds w r
      → HasSocket w n
      → Recovers (at_places w activating r b)
  unfolding set_active
  activating-Recovers w r b n away ends has =
      let w' : World I.State = record w { net = set_active true w.net } in
      step-Recovers (by_conn activates)
        (watching-Recovers w' r b n away (lasts-RecvEnds w w' r (λ h. h) ends) refl has)

  registering-Recovers :
      (w : World I.State) (r : RecvPc) (b : Bool) (n : ℕ)
      → IsAway r
      → RecvEnds w r
      → (w.conns n).closed ≡ false
      → w.net.is_shutdown ≡ false
      → Recovers (at_places w (registering n) r b)
  unfolding set_socket
  registering-Recovers w r b n away ends opened live =
      let w' : World I.State = record w { net = set_socket n w.net } in
      step-Recovers (by_conn registers) (
        activating-Recovers w' r b n away (lasts-RecvEnds w w' r (λ h. h) ends)
          (refl, opened, live))

  connecting-Recovers :
      (s : I.State) (w : World I.State) (r : RecvPc) (b : Bool)
      → IsAway r
      → RecvEnds w r
      → w.net.is_shutdown ≡ false
      → Recovers (at_places w connecting r b)
  connecting-Recovers s w r b away ends live =
      let new : Conn I.State = record { start = s; stream = s; pictures = []; closed = false } in
      let w' : World I.State = record w {
        made = suc w.made;
        conns = with_conn w.made new w.conns;
      } in
      step-Recovers (by_conn (connects s)) (
        registering-Recovers w' r b w.made away (lasts-RecvEnds w w' r (λ h. h) ends)
          (ap (λ v. v.closed) (with_conn-same w.made new w.conns)) live)

  head-Recovers :
      (s : I.State) (w : World I.State) (r : RecvPc) (b : Bool)
      → IsAway r
      → RecvEnds w r
      → w.net.is_shutdown ≡ false
      → Recovers (at_places w conn_head r b)
  head-Recovers s w r b away ends live =
      step-Recovers (by_conn (enters live)) (connecting-Recovers s w r b away ends live)

  closing-Recovers :
      (s : I.State) (w : World I.State) (r : RecvPc) (b : Bool)
      → IsAway r
      → RecvEnds w r
      → w.net.is_shutdown ≡ false
      → Recovers (at_places w closing r b)
  closing-Recovers s w r b away ends live =
      let w' : World I.State = record w { conns = close_socket w.net.socket w.conns } in
      step-Recovers (by_conn closes)
        (head-Recovers s w' r b away (lasts-RecvEnds w w' r (λ h. h) ends) live)

  off-Recovers :
      (s : I.State) (w : World I.State) (p : ConnPc) (r : RecvPc) (b : Bool)
      → ConnEnds w p
      → RecvEnds w r
      → w.net.is_shutdown ≡ false
      → w.net.is_active ≡ false
      → Tied w p r
      → Recovers (at_places w p r b)
  off-Recovers s w p r b ends ends' live idle (on active has at) = absurd (cc (active, idle))
  off-Recovers s w conn_head r b ends ends' live idle (off _ away _) =
      head-Recovers s w r b away ends' live
  off-Recovers s w connecting r b ends ends' live idle (off _ away _) =
      connecting-Recovers s w r b away ends' live
  off-Recovers s w (registering n) r b ends ends' live idle (off _ away (opened, _)) =
      registering-Recovers w r b n away ends' opened live
  off-Recovers s w activating r b ends ends' live idle (off _ away (n, has)) =
      activating-Recovers w r b n away ends' has
  off-Recovers s w watching r b ends ends' live idle (off _ away _) =
      step-Recovers (by_conn (resumes idle)) (closing-Recovers s w r b away ends' live)
  off-Recovers s w closing r b ends ends' live idle (off _ away _) =
      closing-Recovers s w r b away ends' live
  off-Recovers s w conn_ended r b ends ends' live idle (off _ away _) = absurd (cc (ends, live))

  -- In every state that the threads of a connection come to, as long as no shutdown has been called
  -- and there is no connection, behind an IOException for example: they can go on to where the
  -- receiver reads an open socket again, provided there is a stream that the network can give.
  pub ClientReach-Recovers :
      {conns : ℕ → Conn I.State} {c : Client I.State} (s : I.State)
      → ClientReach I Breaks (begin_client conns) c
      → c.world.net.is_shutdown ≡ false
      → c.world.net.is_active ≡ false
      → Recovers c
  ClientReach-Recovers {c = c} s run live idle =
      let (ends, ends') = reach-Ends run in
      off-Recovers s c.world c.conn c.recv c.shut ends ends' live idle (reach-Tied run)
