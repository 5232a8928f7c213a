-- ===== src/Connection/Ends.antt =====
-- NetMonitor.java: when the threads of a connection end.
use edaf55_project.Base.{ℕ, ◌≡◌, refl, ◌∙◌, true}
use edaf55_project.PictureReciever.{InputStream}
use edaf55_project.Connection.{
  World, Conn, ConnPc, conn_head, connecting, activating, watching, closing, conn_ended,
  registering, RecvPc, recv_head, awaiting, getting, recv_ended, reading, ConnMove, enters, leaves,
  connects, unknown_host, refused, not_configured, registers, activates, resumes, closes, RecvMove,
  goes_on, stops, sees, gets, no_socket, receives, breaks, throws, fails, Client, by_conn, by_recv,
  shuts, ClientReach, at_begin, after, begin_client, set_socket, set_active, shut_down,
  close_socket,
}

-- The threads end only behind a shutdown.
abbrev pub ConnEnds : {S : Type 0} → World S → ConnPc → Type 0
ConnEnds w conn_ended = w.net.is_shutdown ≡ true
ConnEnds w _ = Unit

abbrev pub RecvEnds : {S : Type 0} → World S → RecvPc → Type 0
RecvEnds w recv_ended = w.net.is_shutdown ≡ true
RecvEnds w _ = Unit

conn-shutdown :
    {S : Type 0} {w w' : World S} {p q : ConnPc}
    → ConnMove w p w' q
    → w'.net.is_shutdown ≡ w.net.is_shutdown
unfolding set_active set_socket
conn-shutdown (enters _) = refl
conn-shutdown (leaves _) = refl
conn-shutdown (connects _) = refl
conn-shutdown unknown_host = refl
conn-shutdown refused = refl
conn-shutdown not_configured = refl
conn-shutdown registers = refl
conn-shutdown activates = refl
conn-shutdown (resumes _) = refl
conn-shutdown closes = refl

conn-ConnEnds : {S : Type 0} {w w' : World S} {p q : ConnPc} → ConnMove w p w' q → ConnEnds w' q
conn-ConnEnds (enters _) = tt
conn-ConnEnds (leaves down) = down
conn-ConnEnds (connects _) = tt
conn-ConnEnds unknown_host = tt
conn-ConnEnds refused = tt
conn-ConnEnds not_configured = tt
conn-ConnEnds registers = tt
conn-ConnEnds activates = tt
conn-ConnEnds (resumes _) = tt
conn-ConnEnds closes = tt

-- A shutdown lasts, wherever the other thread is.
lasts-ConnEnds :
    {S : Type 0} (w w' : World S) (p : ConnPc)
    → (w.net.is_shutdown ≡ true → w'.net.is_shutdown ≡ true)
    → ConnEnds w p
    → ConnEnds w' p
lasts-ConnEnds w w' conn_ended lasts h = lasts h
lasts-ConnEnds w w' conn_head lasts h = tt
lasts-ConnEnds w w' connecting lasts h = tt
lasts-ConnEnds w w' activating lasts h = tt
lasts-ConnEnds w w' watching lasts h = tt
lasts-ConnEnds w w' closing lasts h = tt
lasts-ConnEnds w w' (registering n) lasts h = tt

pub lasts-RecvEnds :
    {S : Type 0} (w w' : World S) (r : RecvPc)
    → (w.net.is_shutdown ≡ true → w'.net.is_shutdown ≡ true)
    → RecvEnds w r
    → RecvEnds w' r
lasts-RecvEnds w w' recv_ended lasts h = lasts h
lasts-RecvEnds w w' recv_head lasts h = tt
lasts-RecvEnds w w' awaiting lasts h = tt
lasts-RecvEnds w w' getting lasts h = tt
lasts-RecvEnds w w' (reading n) lasts h = tt

module _ {I : InputStream} {Breaks : ℕ → Type 0} where
  -- What the receiver leaves of the shutdown, and of its own end.
  recv-RecvEnds :
      {w w' : World I.State} {p q : RecvPc}
      → RecvMove I Breaks w p w' q
      → (w.net.is_shutdown ≡ true → w'.net.is_shutdown ≡ true) × RecvEnds w' q
  unfolding set_active shut_down
  recv-RecvEnds (goes_on _) = ((λ h. h), tt)
  recv-RecvEnds (stops down) = ((λ h. h), down)
  recv-RecvEnds (sees _) = ((λ h. h), tt)
  recv-RecvEnds (gets _) = ((λ h. h), tt)
  recv-RecvEnds (no_socket _) = ((λ h. refl), refl)
  recv-RecvEnds (receives _ _) = ((λ h. h), tt)
  recv-RecvEnds (breaks _ _) = ((λ h. h), tt)
  recv-RecvEnds (throws _ _) = ((λ h. refl), refl)
  recv-RecvEnds (fails _) = ((λ h. h), tt)

  -- Whoever has ended has done so behind a shutdown.
  pub reach-Ends :
      {conns : ℕ → Conn I.State} {c : Client I.State}
      → ClientReach I Breaks (begin_client conns) c
      → ConnEnds c.world c.conn × RecvEnds c.world c.recv
  reach-Ends at_begin = (tt, tt)
  reach-Ends (after {d = d} run (by_conn {w = w} move)) =
      let (ends, ends') = reach-Ends run in
      (conn-ConnEnds move, lasts-RecvEnds d.world w d.recv (λ h. conn-shutdown move ∙ h) ends')
  reach-Ends (after {d = d} run (by_recv {w = w} move)) =
      let (ends, ends') = reach-Ends run in
      let (lasts, ended) = recv-RecvEnds move in (lasts-ConnEnds d.world w d.conn lasts ends, ended)
  reach-Ends (after {d = d} run (shuts _ down)) =
      let (ends, ends') = reach-Ends run in
      let w : World I.State = record (d.world) {
        conns = close_socket d.world.net.socket d.world.conns;
      } in
      (
        lasts-ConnEnds d.world w d.conn (λ h. h) ends,
        lasts-RecvEnds d.world w d.recv (λ h. h) ends',
      )
