-- ===== src/PictureReciever/Pieces.antt =====
-- A header that does not come in one read.
use edaf55_project.Base.{
  ℕ, suc, ◌+◌, ◌-◌, ◌≡◌, ◌≤◌, ◌<◌, ◌∙◌, ap, List, some, false, length, arith, ◌==◌,
}
use edaf55_project.Packet.{header_size}
use edaf55_project.PictureReciever.{InputStream, IsStream, header_loop}
use edaf55_project.PictureReciever.Loops.{filled_at, length-filled_at, read_at-filled, read_at-zero}

module _ (I : InputStream) (L : IsStream I) where
  -- One round of the loop that has read the bytes `d`.
  header_loop-piece :
      (fuel : ℕ) (s t : I.State) (buffer : List ℕ) (off size : ℕ) (d : List ℕ)
      → off + size ≤ length buffer
      → 0 < length d
      → I.read s size ≡ (some d, t)
      → header_loop I (suc fuel) s buffer off size
        ≡ header_loop I fuel t (filled_at buffer off d) (length d) (size - length d)
  unfolding header_loop
  header_loop-piece fuel s t buffer off size d room some_read q =
      let more : (length d == 0) ≡ false = ground arith in
      rw (read_at-filled I L s t buffer off size d room q, more)

  header_loop-done :
      (fuel : ℕ) (s : I.State) (buffer : List ℕ) (off : ℕ)
      → off ≤ length buffer
      → (t : I.State) × (header_loop I (suc fuel) s buffer off 0 ≡ some (0, buffer, t))
        × (I.remaining t ≡ I.remaining s)
  unfolding header_loop
  header_loop-done fuel s buffer off room =
      let (t, q, same) = read_at-zero I L s buffer off room in (t, rw q, same)

  -- A header that comes in three pieces does not get to its place: the second piece stands behind
  -- the first, but the third is written at the offset that is the length of the second, not behind
  -- it. The loop still ends with 0 bytes to read, as if the header were complete.
  pub header_loop-misplaced :
      (s t u v : I.State) (buffer p q r : List ℕ)
      → I.read s header_size ≡ (some p, t)
      → I.read t (header_size - length p) ≡ (some q, u)
      → I.read u (header_size - length p - length q) ≡ (some r, v)
      → 0 < length p
      → 0 < length q
      → 0 < length r
      → length p + length q + length r ≡ header_size
      → header_size ≤ length buffer
      → (w : I.State) × (header_loop I (header_size + 1) s buffer 0 header_size
          ≡ some (0, filled_at (filled_at (filled_at buffer 0 p) (length p) q) (length q) r, w))
        × (I.remaining w ≡ I.remaining v)
  header_loop-misplaced s t u v buffer p q r first second third hp hq hr ten room =
      let b1 = filled_at buffer 0 p in
      let b2 = filled_at b1 (length p) q in
      let b3 = filled_at b2 (length q) r in
      let n1 : length b1 ≡ length buffer = length-filled_at buffer 0 p (omega arith) in
      let n2 : length b2 ≡ length b1 = length-filled_at b1 (length p) q (omega arith) in
      let n3 : length b3 ≡ length b2 = length-filled_at b2 (length q) r (omega arith) in
      let none_left : header_size - length p - length q - length r ≡ 0 = omega arith in
      let (w, done, same) = header_loop-done 7 v b3 (length r) (omega arith) in
      (
        w,
        header_loop-piece 10 s t buffer 0 header_size p (omega arith) hp first
            ∙ header_loop-piece 9 t u b1 (length p) (header_size - length p) q (omega arith) hq
                second
            ∙ header_loop-piece 8 u v b2 (length q) (header_size - length p - length q) r
                (omega arith) hr third
            ∙ ap (header_loop I 8 v b3 (length r)) none_left
            ∙ done,
        same,
      )
