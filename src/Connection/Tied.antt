-- ===== src/Connection/Tied.antt =====
-- NetMonitor.java: how the connection and the two threads that share it hang together.
use edaf55_project.Base.{ℕ, ◌≡◌, refl, ap, ◌∙◌, sym, some, true, false, arith, ◌==◌, if◌then◌else◌}
use mathlib.Core.Path.{subst}
use mathlib.Core.Option.{some-injective}
use edaf55_project.PictureReciever.{InputStream}
use edaf55_project.Connection.{
  World, Conn, ConnPc, conn_head, connecting, activating, watching, closing, conn_ended,
  registering, RecvPc, recv_head, awaiting, recv_ended, reading, ConnMove, enters, leaves, connects,
  unknown_host, refused, not_configured, registers, activates, resumes, closes, RecvMove, goes_on,
  stops, sees, gets, no_socket, receives, breaks, throws, fails, Client, ClientStep, by_conn,
  by_recv, shuts, ClientReach, at_begin, after, begin_client, set_socket, set_active, shut_down,
  close_socket, with_conn,
}

abbrev pub RecvOn : ℕ → RecvPc → Type 0
RecvOn n (reading k) = k ≡ n
RecvOn n _ = Unit

pub with_conn-same :
    {S : Type 0} (n : ℕ) (v : Conn S) (conns : ℕ → Conn S) → with_conn n v conns n ≡ v
with_conn-same n v conns =
    let same : (n == n) ≡ true = ground arith in ap (λ b. if b then v else conns n) same

-- It does not read, and is not about to.
pub data IsAway : RecvPc → Type 0 where
  away_head : IsAway recv_head
  away_waiting : IsAway awaiting
  away_ended : IsAway recv_ended

-- The monitor's socket is made and open.
abbrev pub HasSocket : {S : Type 0} → World S → ℕ → Type 0
HasSocket w n = (w.net.socket ≡ some n) × ((w.conns n).closed ≡ false) × (w.net.is_shutdown ≡ false)

abbrev pub Ready : {S : Type 0} → World S → ConnPc → Type 0
Ready w connecting = w.net.is_shutdown ≡ false
Ready w (registering n) = ((w.conns n).closed ≡ false) × (w.net.is_shutdown ≡ false)
Ready w activating = (n : ℕ) × HasSocket w n
Ready w _ = Unit

-- Either the connection thread waits for the end of a connection that is open, or there is no
-- connection and nobody reads.
pub data Tied {S : Type 0} (w : World S) : ConnPc → RecvPc → Type 0 where
  on :
      {n : ℕ} {r : RecvPc} → w.net.is_active ≡ true → HasSocket w n → RecvOn n r → Tied w watching r
  off : {p : ConnPc} {r : RecvPc} → w.net.is_active ≡ false → IsAway r → Ready w p → Tied w p r

recv-on : (n : ℕ) {r : RecvPc} → IsAway r → RecvOn n r
recv-on n away_head = tt
recv-on n away_waiting = tt
recv-on n away_ended = tt

conn-Tied :
    {S : Type 0} {w w' : World S} {p q : ConnPc} {r : RecvPc}
    → ConnMove w p w' q
    → Tied w p r
    → Tied w' q r
unfolding set_active set_socket
conn-Tied (enters live) (off idle away _) = off idle away live
conn-Tied (leaves down) (off idle away _) = off idle away tt
conn-Tied (connects s) (off idle away live) = off idle away (ground arith, live)
conn-Tied unknown_host (off idle away _) = off idle away tt
conn-Tied refused (off _ away _) = off refl away tt
conn-Tied not_configured (off _ away _) = off refl away tt
conn-Tied (registers {n = n}) (off idle away (opened, live)) =
    off idle away (n, (refl, opened, live))
conn-Tied activates (off _ away (n, has)) = on refl has (recv-on n away)
conn-Tied (resumes idle) (on active _ _) = absurd (ground arith)
conn-Tied (resumes idle) (off _ away _) = off idle away tt
conn-Tied closes (off idle away _) = off idle away tt

shuts-Tied :
    {S : Type 0} {w : World S} {p : ConnPc} {r : RecvPc}
    → w.net.is_shutdown ≡ true
    → Tied w p r
    → Tied (record w { conns = close_socket w.net.socket w.conns }) p r
shuts-Tied down (on active (socket, opened, live) at) = absurd (ground arith)
shuts-Tied {p = conn_head} down (off idle away _) = off idle away tt
shuts-Tied {p = connecting} down (off idle away live) = absurd (ground arith)
shuts-Tied {p = registering n} down (off idle away (_, live)) = absurd (ground arith)
shuts-Tied {p = activating} down (off idle away (n, (_, _, live))) = absurd (ground arith)
shuts-Tied {p = watching} down (off idle away _) = off idle away tt
shuts-Tied {p = closing} down (off idle away _) = off idle away tt
shuts-Tied {p = conn_ended} down (off idle away _) = off idle away tt

reading-Tied :
    {S : Type 0} {w : World S} {p : ConnPc} {n : ℕ}
    → Tied w p (reading n)
    → HasSocket w n × (w.net.is_active ≡ true) × (p ≡ watching)
reading-Tied {w = w} (on active has at) = (subst (HasSocket w) (sym at) has, active, refl)
reading-Tied (off idle away _) = elim away [ ]

module _ {I : InputStream} {Breaks : ℕ → Type 0} where
  recv-off :
      {w w' : World I.State} {p : ConnPc} {r s : RecvPc}
      → IsAway r
      → RecvMove I Breaks w r w' s
      → w.net.is_active ≡ false
      → Ready w p
      → Tied w' p s
  recv-off away_head (goes_on live) idle ready = off idle away_waiting ready
  recv-off away_head (stops down) idle ready = off idle away_ended ready
  recv-off away_waiting (sees active) idle ready = absurd (ground arith)
  recv-off away_ended move idle ready = elim move [ ]

  recv-Tied :
      {w w' : World I.State} {p : ConnPc} {r s : RecvPc}
      → RecvMove I Breaks w r w' s
      → Tied w p r
      → Tied w' p s
  unfolding set_active shut_down
  recv-Tied move (off idle away ready) = recv-off away move idle ready
  recv-Tied (goes_on live) (on active has _) = on active has tt
  recv-Tied (stops down) (on active has _) = on active has tt
  recv-Tied (sees _) (on active has _) = on active has tt
  recv-Tied (gets at) (on active has _) = on active has (some-injective _ _ (sym at ∙ has.0))
  recv-Tied (no_socket missing) (on active has _) = absurd (cc (missing, has.0))
  recv-Tied (receives ready got) (on active has at) =
      let (socket, opened, live) = has in on active (socket, ground arith, live) at
  recv-Tied (breaks ready got) (on active has at) =
      let (socket, opened, live) = has in on active (socket, ground arith, live) tt
  recv-Tied (throws opened got) (on _ _ _) = off refl away_ended tt
  recv-Tied (fails why) (on _ _ _) = off refl away_head tt

  step-Tied :
      {c d : Client I.State}
      → ClientStep I Breaks c d
      → Tied c.world c.conn c.recv
      → Tied d.world d.conn d.recv
  step-Tied (by_conn move) tied = conn-Tied move tied
  step-Tied (by_recv move) tied = recv-Tied move tied
  step-Tied (shuts _ down) tied = shuts-Tied down tied

  -- What the threads of a connection hold to from their start on.
  pub reach-Tied :
      {conns : ℕ → Conn I.State} {c : Client I.State}
      → ClientReach I Breaks (begin_client conns) c
      → Tied c.world c.conn c.recv
  reach-Tied at_begin = off refl away_head tt
  reach-Tied (after run move) = step-Tied move (reach-Tied run)

  -- In every run of the threads of a connection: while the receiver reads a socket, this is the
  -- monitor's socket and it is open, no shutdown has been called, and the connection thread waits
  -- for the end of that connection and of no other.
  pub reading-watching :
      {conns : ℕ → Conn I.State} {c : Client I.State} {n : ℕ}
      → ClientReach I Breaks (begin_client conns) c
      → c.recv ≡ reading n
      → HasSocket c.world n × (c.world.net.is_active ≡ true) × (c.conn ≡ watching)
  reading-watching {c = c} {n} run at =
      reading-Tied (subst (Tied c.world c.conn) at (reach-Tied run))
