-- ===== src/PictureReciever/Loops.antt =====
-- The two reading loops against what they are for: so many bytes of the stream, at their place.
use edaf55_project.Base.{
  ℕ, zero, suc, ◌+◌, ◌-◌, ◌≡◌, ◌≤◌, ◌<◌, ◌∙◌, refl, ap, sym, List, [], ◌∷◌, ◌++◌, Option, none,
  some, false, length, take, drop, ◌==◌, arith, length-append, length-take, le→leb, ap₂,
  append_assoc, take-length, take-append, take-append-drop, drop-drop, drop-append_add, drop-append,
  length-drop, inl, inr, ◌⊎◌,
}
use edaf55_project.Memory.Words.{memcpy_inside}
use edaf55_project.PictureReciever.{InputStream, IsStream, read_at, image_loop, header_loop}

-- The buffer with the bytes `d` at `off`.
abbrev pub filled_at : List ℕ → ℕ → List ℕ → List ℕ
filled_at buffer off d = take off buffer ++ (d ++ drop (off + length d) buffer)

-- The front of a text that begins with `d`.
split_front :
    (d ws rest rem : List ℕ)
    → ws ++ rest ≡ d ++ rem
    → length d ≤ length ws
    → (ws' : List ℕ) × (ws ≡ d ++ ws') × (rem ≡ ws' ++ rest)
split_front [] ws rest rem e h = (ws, refl, sym e)
split_front (x ∷ d) [] rest rem e h = absurd (omega arith)
split_front (x ∷ d) (y ∷ ws) rest rem e h =
    let (ws', p, q) = split_front d ws rest rem (cc) (omega arith) in (ws', (cc), q)

filled_at-nil : (buffer : List ℕ) (off : ℕ) → filled_at buffer off [] ≡ buffer
filled_at-nil buffer off =
    ap (λ n. take off buffer ++ drop n buffer) (omega arith) ∙ take-append-drop off buffer

pub length-filled_at :
    (buffer : List ℕ) (off : ℕ) (d : List ℕ)
    → off + length d ≤ length buffer
    → length (filled_at buffer off d) ≡ length buffer
length-filled_at buffer off d h = omega (
  arith,
  length-append (take off buffer) (d ++ drop (off + length d) buffer),
  length-append d (drop (off + length d) buffer),
  length-take off buffer,
  length-drop (off + length d) buffer,
)

-- Two writes, one behind the other.
filled_at-append :
    (buffer : List ℕ) (off : ℕ) (d e : List ℕ)
    → off + length d ≤ length buffer
    → filled_at (filled_at buffer off d) (off + length d) e ≡ filled_at buffer off (d ++ e)
filled_at-append buffer off d e h =
    let front = take off buffer ++ d in
    let n : length front ≡ off + length d =
      omega (arith, length-append (take off buffer) d, length-take off buffer) in
    let behind = drop (off + length d) buffer in
    let whole : filled_at buffer off d ≡ front ++ behind =
      sym (append_assoc (take off buffer) d behind) in
    let taken : take (off + length d) (filled_at buffer off d) ≡ front =
      ap (take (off + length d)) whole
      ∙ ap (λ k. take k (front ++ behind)) (sym n)
      ∙ take-append front behind in
    let dropped : drop (off + length d + length e) (filled_at buffer off d)
        ≡ drop (off + length (d ++ e)) buffer =
      ap (drop (off + length d + length e)) whole
      ∙ ap (λ k. drop (k + length e) (front ++ behind)) (sym n)
      ∙ drop-append_add front behind (length e)
      ∙ drop-drop (length e) (off + length d) buffer
      ∙ ap (λ k. drop k buffer) (omega (arith, length-append d e)) in
    ap₂ (λ a b. a ++ (e ++ b)) taken dropped
    ∙ append_assoc (take off buffer) d (e ++ drop (off + length (d ++ e)) buffer)
    ∙ ap (λ r. take off buffer ++ r) (sym (append_assoc d e (drop (off + length (d ++ e)) buffer)))

-- What a read gives.
pub read-cases :
    {S : Type 0} (p : Option (List ℕ) × S)
    → ((t : S) × (p ≡ (none, t)))
      ⊎ ((t : S) × (p ≡ (some [], t)))
      ⊎ ((x : ℕ) × (d : List ℕ) × (t : S) × (p ≡ (some (x ∷ d), t)))
read-cases (none, t) = inl (t, refl)
read-cases (some [], t) = inr (inl (t, refl))
read-cases (some (x ∷ d), t) = inr (inr (x, d, t, refl))

module _ (I : InputStream) (L : IsStream I) where
  -- A read that is answered puts its bytes into the buffer.
  pub read_at-filled :
      (s t : I.State) (buffer : List ℕ) (off size : ℕ) (d : List ℕ)
      → off + size ≤ length buffer
      → I.read s size ≡ (some d, t)
      → read_at I s buffer off size ≡ some (length d, filled_at buffer off d, t)
  unfolding read_at
  read_at-filled s t buffer off size d room q = rw (
    le→leb _ _ room,
    q,
    memcpy_inside buffer off d (length d) (omega (arith, L.at_most s t size d q)) (omega arith),
    take-length d,
  )

  pub read_at-none :
      (s t : I.State) (buffer : List ℕ) (off size : ℕ)
      → off + size ≤ length buffer
      → I.read s size ≡ (none, t)
      → read_at I s buffer off size ≡ some (0, buffer, t)
  unfolding read_at
  read_at-none s t buffer off size room q = rw (le→leb _ _ room, q)

  -- A read of no bytes changes nothing.
  pub read_at-zero :
      (s : I.State) (buffer : List ℕ) (off : ℕ)
      → off ≤ length buffer
      → (t : I.State) × (read_at I s buffer off 0 ≡ some (0, buffer, t))
        × (I.remaining t ≡ I.remaining s)
  read_at-zero s buffer off room = elim (read-cases (I.read s 0)) [
    | inl (t, q) ↦ (
      t,
      read_at-none s t buffer off 0 (omega arith) q,
      (L.ended s t 0 q).1 ∙ sym (L.ended s t 0 q).0,
    )
    | inr (inl (t, q)) ↦ (
      t,
      rw (read_at-filled s t buffer off 0 [] (omega arith) q, filled_at-nil buffer off),
      sym (L.gives s t 0 [] q),
    )
    | inr (inr (x, d, t, q)) ↦ absurd (omega (arith, L.at_most s t 0 (x ∷ d) q))
  ]

  -- A read that gives all the bytes that are there leaves those behind them.
  pub read_whole :
      (s : I.State) (d rest : List ℕ)
      → (I.read s (length d)).0 ≡ some d
      → I.remaining s ≡ d ++ rest
      → (t : I.State) × (I.read s (length d) ≡ (some d, t)) × (I.remaining t ≡ rest)
  read_whole s d rest whole there =
      let t = (I.read s (length d)).1 in
      let q : I.read s (length d) ≡ (some d, t) = ap (λ o. (o, t)) whole in
      let e : d ++ I.remaining t ≡ d ++ rest = sym (L.gives s t (length d) d q) ∙ there in
      (t, q, sym (drop-append d (I.remaining t)) ∙ ap (drop (length d)) e ∙ drop-append d rest)

  -- The loop of the header, where its first read gives all the bytes.
  pub header_loop-filled_at :
      (fuel : ℕ) (s : I.State) (buffer : List ℕ) (off x : ℕ) (d rest : List ℕ)
      → (I.read s (length (x ∷ d))).0 ≡ some (x ∷ d)
      → off + length (x ∷ d) ≤ length buffer
      → I.remaining s ≡ x ∷ d ++ rest
      → (t : I.State) × (header_loop I (suc (suc fuel)) s buffer off (length (x ∷ d))
          ≡ some (0, filled_at buffer off (x ∷ d), t))
        × (I.remaining t ≡ rest)
  unfolding header_loop
  header_loop-filled_at fuel s buffer off x d rest whole room there =
      let n = length (x ∷ d) in
      let (t, q, left) = read_whole s (x ∷ d) rest whole there in
      let (u, done, same) =
        read_at-zero t (filled_at buffer off (x ∷ d)) n
          (omega (arith, length-filled_at buffer off (x ∷ d))) in
      let more : (n == 0) ≡ false = ground arith in
      let none_left : n - n ≡ 0 = omega arith in
      (
        u,
        rw (read_at-filled s t buffer off n (x ∷ d) (omega arith) q, more, none_left, done) refl,
        same ∙ left,
      )

  -- The loop of the image reads exactly the bytes that are asked for, however the stream cuts them
  -- up, if they are there.
  pub image_loop-filled_at :
      (fuel : ℕ) (s : I.State) (buffer : List ℕ) (position : ℕ) (ws rest : List ℕ)
      → length ws < fuel
      → position + length ws ≤ length buffer
      → I.remaining s ≡ ws ++ rest
      → (t : I.State) × (image_loop I fuel s buffer position (length ws)
          ≡ some (0, filled_at buffer position ws, t))
        × (I.remaining t ≡ rest)
  unfolding image_loop
  image_loop-filled_at zero s buffer position ws rest h room there = absurd (omega arith)
  image_loop-filled_at (suc fuel) s buffer position [] rest h room there =
      let (t, done, left) = read_at-zero s buffer position (omega arith) in
      (t, rw (done, filled_at-nil buffer position), left ∙ there)
  image_loop-filled_at (suc fuel) s buffer position (w ∷ ws) rest h room there =
      let size = length (w ∷ ws) in
      elim (read-cases (I.read s size)) [
        | inl (t, q) ↦ absurd (ground (arith, L.ended s t size q, there))
        | inr (inl (t, q)) ↦ absurd (omega (arith, L.at_least s t size [] q))
        | inr (inr (x, d, t, q)) ↦
            let (ws', p, q') =
              split_front (x ∷ d) (w ∷ ws) rest (I.remaining t)
                (sym there ∙ L.gives s t size (x ∷ d) q) (L.at_most s t size (x ∷ d) q) in
            let lengths : size ≡ length (x ∷ d) + length ws' =
              ap length p ∙ length-append (x ∷ d) ws' in
            let (u, runs, left) =
              image_loop-filled_at fuel t (filled_at buffer position (x ∷ d))
                (position + length (x ∷ d)) ws' rest (omega (arith, lengths))
                (omega (arith, lengths, length-filled_at buffer position (x ∷ d))) q' in
            let more : (length (x ∷ d) == 0) ≡ false = ground arith in
            let sizes : size - length (x ∷ d) ≡ length ws' = omega (arith, lengths) in
            (
              u,
              rw (read_at-filled s t buffer position size (x ∷ d) room q, more, sizes)
                  (runs
                    ∙ ap (λ b. some (0, b, u))
                        (filled_at-append buffer position (x ∷ d) ws' (omega (arith, lengths))
                          ∙ ap (filled_at buffer position) (sym p))),
              left,
            )
      ]
