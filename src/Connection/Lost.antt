-- ===== src/Connection/Lost.antt =====
-- The threads of a connection where the server has ended it in order.
use mathlib.Core.Option.{some-injective}
use mathlib.Core.Path.{subst}
use edaf55_project.Base.{ℕ, ◌≡◌, refl, ◌∙◌, sym, ap, List, [], true, inl, inr, arith}
use edaf55_project.PictureReciever.{InputStream, IsStream, Picture}
use edaf55_project.PictureReciever.Ended.{receive-ended, receive-broke}
use edaf55_project.Connection.{
  World, Conn, ConnPc, watching, RecvPc, recv_head, awaiting, getting, reading, ConnMove, resumes,
  RecvMove, goes_on, stops, sees, gets, no_socket, receives, breaks, throws, fails, Client,
  ClientStep, by_conn, by_recv, shuts, ClientReach, at_begin, after, begin_client,
}
use edaf55_project.Connection.Tied.{HasSocket, with_conn-same, reading-watching}

-- The receiver goes round between its tests and the reading of socket `n`.
pub data Circles (n : ℕ) : RecvPc → Type 0 where
  at_head : Circles n recv_head
  at_waiting : Circles n awaiting
  at_getting : Circles n getting
  at_reading : Circles n (reading n)

-- The monitor's socket is `n`, and its stream has ended; so many sockets have been made, and these
-- pictures were read.
pub record IsLost (I : InputStream) (n made : ℕ) (ps : List Picture) (w : World I.State)
    : Type 0 where
  pub has : HasSocket w n
  pub active : w.net.is_active ≡ true
  pub ended : I.remaining (w.conns n).stream ≡ []
  pub read : (w.conns n).pictures ≡ ps
  pub no_more : w.made ≡ made

abbrev Lost : (I : InputStream) → ℕ → ℕ → List Picture → Client I.State → Type 0
Lost I n made ps c = IsLost I n made ps c.world × Circles n c.recv × (c.conn ≡ watching)

conn-stays :
    {S : Type 0} {w w' : World S} {q : ConnPc}
    → w.net.is_active ≡ true
    → ConnMove w watching w' q
    → ⊥
conn-stays active (resumes idle) = ground arith

module _ {I : InputStream} (L : IsStream I) {Breaks : ℕ → Type 0} {n : ℕ} (whole : ¬ Breaks n) where
  recv-Circles :
      {made : ℕ} {ps : List Picture} {w w' : World I.State} {r s : RecvPc}
      → IsLost I n made ps w
      → Circles n r
      → RecvMove I Breaks w r w' s
      → IsLost I n made ps w' × Circles n s
  recv-Circles v at_head (goes_on _) = (v, at_waiting)
  recv-Circles v at_head (stops down) = absurd (cc (down, v.has.2))
  recv-Circles v at_waiting (sees _) = (v, at_getting)
  recv-Circles v at_getting (gets at) =
      (v, subst (λ k. Circles n (reading k)) (some-injective _ _ (sym v.has.0 ∙ at)) at_reading)
  recv-Circles v at_getting (no_socket missing) = absurd (cc (missing, v.has.0))
  recv-Circles {w = w} v at_reading (receives _ got) =
      absurd (cc (got, (receive-ended I L (w.conns n).stream v.ended).1))
  recv-Circles {w = w} v at_reading (breaks {t = t} opened got) =
      let behind : Conn I.State = record (w.conns n) { stream = t } in
      let same = with_conn-same n behind w.conns in
      (
        record {
          has = (v.has.0, ap (λ v. v.closed) same ∙ opened, v.has.2);
          active = v.active;
          ended = ap (λ v. I.remaining v.stream) same ∙ receive-broke I L (w.conns n).stream t got;
          read = ap (λ v. v.pictures) same ∙ v.read;
          no_more = v.no_more;
        },
        at_head,
      )
  recv-Circles {w = w} v at_reading (throws _ got) =
      absurd (cc (got, (receive-ended I L (w.conns n).stream v.ended).1))
  recv-Circles v at_reading (fails (inl shut)) = absurd (cc (shut, v.has.1))
  recv-Circles v at_reading (fails (inr broken)) = absurd (whole broken)

  step-Lost :
      {made : ℕ} {ps : List Picture} {c d : Client I.State}
      → ClientStep I Breaks c d
      → Lost I n made ps c
      → Lost I n made ps d
  step-Lost {c = c} (by_conn {w = w} {p = p} move) (v, circles, waits) =
      absurd (conn-stays v.active (subst (λ q. ConnMove c.world q w p) waits move))
  step-Lost (by_recv move) (v, circles, waits) =
      let (v', circles') = recv-Circles v circles move in (v', circles', waits)
  step-Lost (shuts _ down) (v, circles, waits) = absurd (cc (down, v.has.2))

  reach-Lost :
      {made : ℕ} {ps : List Picture} {c d : Client I.State}
      → ClientReach I Breaks c d
      → Lost I n made ps c
      → Lost I n made ps d
  reach-Lost at_begin v = v
  reach-Lost (after run move) v = step-Lost move (reach-Lost run v)

-- Where the server has ended a connection in order, so that reading it does not fail but gives its
-- end, the client never connects again: once the receiver reads at the end of such a stream, in
-- every run that follows no further socket is made, no further picture is read from this one, the
-- connection thread waits for the end of the connection, and the receiver goes on reading.
pub reading-Circles :
    {I : InputStream} {Breaks : ℕ → Type 0} {conns : ℕ → Conn I.State} {c d : Client I.State}
    (n : ℕ)
    → IsStream I
    → ¬ Breaks n
    → ClientReach I Breaks (begin_client conns) c
    → c.recv ≡ reading n
    → I.remaining (c.world.conns n).stream ≡ []
    → ClientReach I Breaks c d
    → (d.world.made ≡ c.world.made)
      × ((d.world.conns n).pictures ≡ (c.world.conns n).pictures)
      × (d.conn ≡ watching)
      × Circles n d.recv
reading-Circles {I} {c = c} n L whole before at over run =
    let (has, active, waits) = reading-watching before at in
    let (v, circles, waits') = reach-Lost L whole run (
      record { has = has; active = active; ended = over; read = refl; no_more = refl },
      subst (Circles n) (sym at) at_reading,
      waits,
    ) in
    (v.no_more, v.read, waits', circles)
