-- ===== src/PictureReciever/Ended.antt =====
-- The client's reading of pictures at the end of the stream, where no exception is thrown.
use mathlib.Core.Option.{some-injective}
use edaf55_project.Base.{
  ℕ, zero, suc, ◌+◌, ◌-◌, ◌≡◌, ◌≤◌, ◌<◌, ◌∙◌, refl, ap, sym, List, [], ◌∷◌, Option, none, some,
  length, replicate, leb, arith, length-replicate, inl, inr, if-cases, ◌==◌,
}
use edaf55_project.Memory.{memcpy, ◌>>=◌}
use edaf55_project.Packet.{header_size, get_picture_size}
use edaf55_project.PictureReciever.{
  InputStream, IsStream, Received, picture, broke, threw, header_loop, image_loop, image_done,
  receive_into, receive, receive_pictures, maximum_picture_size, put, header_done, read_at, stored,
  go_on, Progress,
}
use edaf55_project.PictureReciever.Loops.{read-cases, read_at-none}

module _ (I : InputStream) (L : IsStream I) where
  -- At the end of the stream the reading of a header stops.
  header_loop-ended :
      (fuel : ℕ) (s : I.State) (buffer : List ℕ) (off size : ℕ)
      → 0 < size
      → off + size ≤ length buffer
      → I.remaining s ≡ []
      → (t : I.State) × (header_loop I (suc fuel) s buffer off size ≡ some (size, buffer, t))
  unfolding header_loop
  header_loop-ended fuel s buffer off size some_asked room over =
      elim (read-cases (I.read s size)) [
        | inl (t, q) ↦ (t, rw (read_at-none I L s t buffer off size room q))
        | inr (inl (t, q)) ↦ absurd (omega (arith, L.at_least s t size [] q some_asked))
        | inr (inr (x, d, t, q)) ↦ absurd (ground (arith, L.gives s t size (x ∷ d) q, over))
      ]

  pub receive-ended : (s : I.State) → I.remaining s ≡ [] → (t : I.State) × (receive I s ≡ broke t)
  unfolding receive receive_into
  receive-ended s over =
      let buffer : List ℕ = replicate maximum_picture_size 65 in
      let (t, ends) =
        header_loop-ended 10 s buffer 0 header_size (omega arith)
          (omega (arith, length-replicate {A = ℕ} maximum_picture_size 65)) over in
      (t, ap (header_done I) ends)

  -- No picture comes from a stream that has ended.
  pub receive_pictures-ended :
      (rounds : ℕ) (s : I.State) → I.remaining s ≡ [] → receive_pictures I rounds s ≡ []
  unfolding receive_pictures
  receive_pictures-ended zero s over = refl
  receive_pictures-ended (suc rounds) s over =
      ap (put I (receive_pictures I rounds)) (receive-ended s over).1

  some_stored :
      (n : ℕ) (o : Option (List ℕ)) (b : List ℕ) (u t : I.State)
      → ◌≡◌ {A = Progress I} (o >>= λ b'. some (suc n, b', u)) (some (0, b, t))
      → ⊥
  some_stored n none b u t got = cc got
  some_stored n (some b') b u t got = omega (arith, ap (λ x. x.0) (some-injective _ _ got))

  stored-ended :
      (s : I.State) (buffer : List ℕ) (off size : ℕ) (b : List ℕ) (t : I.State)
      (p : Option (List ℕ) × I.State)
      → I.read s size ≡ p
      → stored I buffer off p ≡ some (0, b, t)
      → 0 < size
      → I.remaining t ≡ []
  unfolding stored
  stored-ended s buffer off size b t (none, u) q got asked =
      ap I.remaining (sym (ap (λ x. x.2) (some-injective _ _ got))) ∙ (L.ended s u size q).1
  stored-ended s buffer off size b t (some [], u) q got asked =
      absurd (omega (arith, L.at_least s u size [] q asked))
  stored-ended s buffer off size b t (some (x ∷ d), u) q got asked =
      absurd (some_stored (length d) (memcpy buffer off (x ∷ d) (length (x ∷ d))) b u t got)

  -- A read that was asked for bytes and has given none was at the end.
  read_at-ended :
      (s : I.State) (buffer : List ℕ) (off size : ℕ) (b : List ℕ) (t : I.State)
      → read_at I s buffer off size ≡ some (0, b, t)
      → 0 < size
      → I.remaining t ≡ []
  unfolding read_at stored
  read_at-ended s buffer off size b t got asked =
      if-cases (λ r. r ≡ some (0, b, t) → I.remaining t ≡ []) (leb (off + size) (length buffer))
        (λ _ got'. stored-ended s buffer off size b t (I.read s size) refl got' asked)
        (λ _ got'. absurd (cc got')) got

  go_on-ended :
      (next : ℕ → List ℕ → I.State → Progress I) (size : ℕ) (p : Progress I) (left : ℕ) (b : List ℕ)
      (t : I.State)
      → ((b' : List ℕ) (u : I.State) → p ≡ some (0, b', u) → 0 < size → I.remaining u ≡ [])
      → ((n : ℕ) (b' : List ℕ) (u : I.State)
          → next n b' u ≡ some (left, b, t)
          → 0 < left
          → I.remaining t ≡ [])
      → go_on I next size p ≡ some (left, b, t)
      → 0 < left
      → I.remaining t ≡ []
  go_on-ended next size none left b t h rest got more = absurd (cc got)
  go_on-ended next size (some (n, b', u)) left b t h rest got more =
      if-cases (λ r. r ≡ some (left, b, t) → I.remaining t ≡ []) (n == 0)
        (λ at_zero stops.
          let e = some-injective _ _ stops in
          ap I.remaining (sym (ap (λ x. x.2) e))
          ∙ h b' u (ap (λ k. some (k, b', u)) (ground arith)) (omega (arith, ap (λ x. x.0) e)))
        (λ _ goes. rest n b' u goes more) got

  header_loop-left :
      (fuel : ℕ) (s : I.State) (buffer : List ℕ) (n size left : ℕ) (b : List ℕ) (t : I.State)
      → header_loop I fuel s buffer n size ≡ some (left, b, t)
      → 0 < left
      → I.remaining t ≡ []
  unfolding header_loop
  header_loop-left zero s buffer n size left b t got more = absurd (cc got)
  header_loop-left (suc fuel) s buffer n size left b t got more =
      go_on-ended (λ n' b t. header_loop I fuel t b n' (size - n')) size (read_at I s buffer n size)
        left b t (read_at-ended s buffer n size)
        (λ n' b' u. header_loop-left fuel u b' n' (size - n') left b t) got more

  image_loop-left :
      (fuel : ℕ) (s : I.State) (buffer : List ℕ) (position size left : ℕ) (b : List ℕ) (t : I.State)
      → image_loop I fuel s buffer position size ≡ some (left, b, t)
      → 0 < left
      → I.remaining t ≡ []
  unfolding image_loop
  image_loop-left zero s buffer position size left b t got more = absurd (cc got)
  image_loop-left (suc fuel) s buffer position size left b t got more =
      go_on-ended (λ n b t. image_loop I fuel t b (position + n) (size - n)) size
        (read_at I s buffer position size) left b t (read_at-ended s buffer position size)
        (λ n b' u. image_loop-left fuel u b' (position + n) (size - n) left b t) got more

  abbrev broke_state : I.State → Received I.State → I.State
  broke_state t (broke u) = u
  broke_state t (picture p u) = t
  broke_state t threw = t

  image_done-broke :
      (head : List ℕ) (t : I.State) (p : Progress I)
      → ((left : ℕ) (b : List ℕ) (u : I.State)
          → p ≡ some (left, b, u)
          → 0 < left
          → I.remaining u ≡ [])
      → image_done I head p ≡ broke t
      → I.remaining t ≡ []
  image_done-broke head t none h got = absurd (cc got)
  image_done-broke head t (some (left, b, u)) h got =
      if-cases (λ r. r ≡ broke t → I.remaining t ≡ []) (left == 0) (λ _ whole. absurd (cc whole))
        (λ some_left short.
          ap I.remaining (sym (ap (broke_state t) short)) ∙ h left b u refl (ground arith))
        got

  header_done-broke :
      (t : I.State) (p : Progress I)
      → ((left : ℕ) (b : List ℕ) (u : I.State)
          → p ≡ some (left, b, u)
          → 0 < left
          → I.remaining u ≡ [])
      → header_done I p ≡ broke t
      → I.remaining t ≡ []
  header_done-broke t none h got = absurd (cc got)
  header_done-broke t (some (left, b, u)) h got =
      let size = get_picture_size b in
      if-cases (λ r. r ≡ broke t → I.remaining t ≡ []) (left == 0)
        (λ _ whole.
          image_done-broke b t (image_loop I (size + 1) u b header_size size)
            (image_loop-left (size + 1) u b header_size size) whole)
        (λ some_left short.
          ap I.remaining (sym (ap (broke_state t) short)) ∙ h left b u refl (ground arith))
        got

  -- A round is broken off at the end of the stream only.
  pub receive-broke : (s t : I.State) → receive I s ≡ broke t → I.remaining t ≡ []
  unfolding receive receive_into
  receive-broke s t got =
      header_done-broke t
        (header_loop I (header_size + 1) s (replicate maximum_picture_size 65) 0 header_size)
        (header_loop-left (header_size + 1) s (replicate maximum_picture_size 65) 0 header_size) got
