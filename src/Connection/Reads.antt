-- ===== src/Connection/Reads.antt =====
-- The pictures that the receiver reads from the sockets of a client, one behind the other.
use edaf55_project.Base.{
  ℕ, suc, ◌+◌, ◌≡◌, ◌<◌, zero, refl, ◌∙◌, sym, ap, [], ◌∷◌, ◌++◌, none, some, Option, true, false,
  arith, ◌==◌, append_assoc, append-nil, if-cases,
}
use edaf55_project.PictureReciever.{
  InputStream, IsStream, Picture, picture, broke, receive, receive_pictures, put,
}
use edaf55_project.PictureReciever.Ended.{receive_pictures-ended, receive-broke}
use edaf55_project.Connection.{
  World, Conn, ConnPc, ConnMove, enters, leaves, connects, unknown_host, refused, not_configured,
  registers, activates, resumes, closes, RecvPc, RecvMove, goes_on, stops, sees, gets, no_socket,
  receives, breaks, throws, fails, Client, ClientStep, by_conn, by_recv, shuts, ClientReach,
  at_begin, after, begin_client, with_conn, close_socket,
}

-- So many rounds on the stream as it was have read the pictures so far, and further rounds read
-- what they would read from where the stream is now.
abbrev HasRead : (I : InputStream) → Conn I.State → Type 0
HasRead I v =
    (k : ℕ) × ((j : ℕ)
      → receive_pictures I (k + j) v.start ≡ v.pictures ++ receive_pictures I j v.stream)

abbrev AllRead : (I : InputStream) → World I.State → Type 0
AllRead I w = (n : ℕ) → n < w.made → HasRead I (w.conns n)

with_conn-HasRead :
    (I : InputStream) (w : World I.State) (m : ℕ) (v : Conn I.State)
    → AllRead I w
    → (m < w.made → HasRead I v)
    → (n : ℕ) → n < w.made
    → HasRead I (with_conn m v w.conns n)
with_conn-HasRead I w m v old new n h =
    if-cases (HasRead I) (n == m) (λ same. new (ground arith)) (λ _. old n h)

close_socket-AllRead :
    (I : InputStream) (w : World I.State) (o : Option ℕ)
    → AllRead I w
    → AllRead I (record w { conns = close_socket o w.conns })
unfolding close_socket
close_socket-AllRead I w none old n h = old n h
close_socket-AllRead I w (some m) old n h =
    with_conn-HasRead I w m (record (w.conns m) { closed = true }) old (old m) n h

conn-AllRead :
    (I : InputStream) {w w' : World I.State} {p q : ConnPc}
    → ConnMove w p w' q
    → AllRead I w
    → AllRead I w'
conn-AllRead I (enters _) old = old
conn-AllRead I (leaves _) old = old
conn-AllRead I {w} (connects s) old = λ n h.
    let fresh : Conn I.State = record { start = s; stream = s; pictures = []; closed = false } in
    if-cases (HasRead I) (n == w.made)
      (λ _. (0, λ j. ap (λ k. receive_pictures I k s) (omega arith)))
      (λ differ. old n (ground arith))
conn-AllRead I unknown_host old = old
conn-AllRead I refused old = old
conn-AllRead I not_configured old = old
conn-AllRead I registers old = old
conn-AllRead I activates old = old
conn-AllRead I (resumes _) old = old
conn-AllRead I {w} closes old = close_socket-AllRead I w w.net.socket old

module _ {I : InputStream} (L : IsStream I) where
  receives-HasRead :
      (v : Conn I.State) {p : Picture} {t : I.State}
      → receive I v.stream ≡ picture p t
      → HasRead I v
      → HasRead I (record v { stream = t; pictures = v.pictures ++ (p ∷ []) })
  unfolding receive_pictures
  receives-HasRead v {p} {t} got (k, reads) = (
    suc k,
    λ j.
        ap (λ n. receive_pictures I n v.start) (omega arith)
        ∙ reads (suc j)
        ∙ ap (λ r. v.pictures ++ put I (receive_pictures I j) r) got
        ∙ sym (append_assoc v.pictures (p ∷ []) (receive_pictures I j t)),
  )

  stops_reading :
      (s t : I.State) (j : ℕ)
      → receive I s ≡ broke t
      → receive_pictures I j s ≡ receive_pictures I j t
  unfolding receive_pictures
  stops_reading s t zero got = refl
  stops_reading s t (suc j) got =
      ap (put I (receive_pictures I j)) got
      ∙ sym (receive_pictures-ended I L (suc j) t (receive-broke I L s t got))

  breaks-HasRead :
      (v : Conn I.State) {t : I.State}
      → receive I v.stream ≡ broke t
      → HasRead I v
      → HasRead I (record v { stream = t })
  breaks-HasRead v {t} got (k, reads) =
      (k, λ j. reads j ∙ ap (λ ps. v.pictures ++ ps) (stops_reading v.stream t j got))

  recv-AllRead :
      {Breaks : ℕ → Type 0} {w w' : World I.State} {p q : RecvPc}
      → RecvMove I Breaks w p w' q
      → AllRead I w
      → AllRead I w'
  recv-AllRead (goes_on _) old = old
  recv-AllRead (stops _) old = old
  recv-AllRead (sees _) old = old
  recv-AllRead (gets _) old = old
  recv-AllRead (no_socket _) old = old
  recv-AllRead {w = w} (receives {n = n} {p = p} {t = t} _ got) old =
      with_conn-HasRead I w n
        (record (w.conns n) { stream = t; pictures = (w.conns n).pictures ++ (p ∷ []) }) old
        (λ h. receives-HasRead (w.conns n) got (old n h))
  recv-AllRead {w = w} (breaks {n = n} {t = t} _ got) old =
      with_conn-HasRead I w n (record (w.conns n) { stream = t }) old
        (λ h. breaks-HasRead (w.conns n) got (old n h))
  recv-AllRead (throws _ _) old = old
  recv-AllRead (fails _) old = old

  step-AllRead :
      {Breaks : ℕ → Type 0} {c d : Client I.State}
      → ClientStep I Breaks c d
      → AllRead I c.world
      → AllRead I d.world
  step-AllRead (by_conn move) old = conn-AllRead I move old
  step-AllRead (by_recv move) old = recv-AllRead move old
  step-AllRead {c = c} (shuts _ _) old = close_socket-AllRead I c.world c.world.net.socket old

  reach-AllRead :
      {Breaks : ℕ → Type 0} {conns : ℕ → Conn I.State} {c : Client I.State}
      → ClientReach I Breaks (begin_client conns) c
      → AllRead I c.world
  reach-AllRead at_begin = λ n h. absurd (omega arith)
  reach-AllRead (after run move) = step-AllRead move (reach-AllRead run)

-- In every run of the threads of a connection, with any connections made, failed and closed: the
-- pictures that each socket has given to the client's monitor are those that some number of rounds
-- reads from its stream as it was made; so none is lost, doubled or taken from another socket.
pub ClientReach-receive_pictures :
    {I : InputStream} {Breaks : ℕ → Type 0} {conns : ℕ → Conn I.State} {c : Client I.State} (n : ℕ)
    → IsStream I
    → ClientReach I Breaks (begin_client conns) c
    → n < c.world.made
    → (rounds : ℕ) × ((c.world.conns n).pictures
        ≡ receive_pictures I rounds (c.world.conns n).start)
unfolding receive_pictures
ClientReach-receive_pictures {I} {c = c} n L run made =
    let (k, reads) = reach-AllRead L run n made in
    (
      k,
      sym (
          ap (λ m. receive_pictures I m (c.world.conns n).start) (omega arith)
          ∙ reads 0
          ∙ append-nil (c.world.conns n).pictures),
    )
