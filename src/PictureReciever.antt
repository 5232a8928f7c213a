-- ===== src/PictureReciever.antt =====
-- edaf55_project_java/src/networking/PictureReciever.java: the thread of the client that reads the
-- pictures, as far as the connection goes. The stream of the socket is a parameter.
pub mod Loops
pub mod Pictures
pub mod Ended
pub mod Delivers
pub mod Pieces
use edaf55_project.Base.{
  ℕ, zero, suc, ◌+◌, ◌-◌, ◌≡◌, ◌≤◌, ◌<◌, List, [], ◌∷◌, ◌++◌, Option, none, some, Bool, true, false,
  ℤ, length, take, drop, replicate, leb, ltb, ◌==◌, if◌then◌else◌,
}
use edaf55_project.Memory.{memcpy, ◌>>=◌}
use edaf55_project.Packet.{header_size, get_picture_size, get_time_stamp}

-- `InputStream.read(b, off, len)`: the bytes, or none for -1 at the end of the stream. `remaining`
-- is what the stream is still to give.
pub record InputStream : Type 1 where
  pub State : Type 0
  pub read : State → ℕ → Option (List ℕ) × State
  pub remaining : State → List ℕ

-- What Java documents of it, where no exception is thrown: a read gives the next bytes, at most as
-- many as asked for, and one at least if any was asked for; it gives -1 only at the end.
pub record IsStream (I : InputStream) : Type 0 where
  pub gives :
      (s t : I.State) (len : ℕ) (d : List ℕ)
      → I.read s len ≡ (some d, t)
      → I.remaining s ≡ d ++ I.remaining t
  pub at_most : (s t : I.State) (len : ℕ) (d : List ℕ) → I.read s len ≡ (some d, t) → length d ≤ len
  pub at_least :
      (s t : I.State) (len : ℕ) (d : List ℕ) → I.read s len ≡ (some d, t) → 0 < len → 0 < length d
  pub ended :
      (s t : I.State) (len : ℕ)
      → I.read s len ≡ (none, t)
      → (I.remaining s ≡ []) × (I.remaining t ≡ [])

abbrev pub maximum_picture_size : ℕ
maximum_picture_size = 50000

-- `Picture(imageData, ts)`
pub record Picture : Type 0 where
  pub image : List ℕ
  pub ts : ℤ

-- What a round of the inner loop ends with: a picture, a `break`, or an exception other than
-- IOException, which shuts the client down.
pub data Received (S : Type 0) : Type 0 where
  picture : Picture → S → Received S
  broke : S → Received S
  threw : Received S

module _ (I : InputStream) where
  -- A read into the buffer: the number of bytes, the buffer and the stream. The end of the stream
  -- counts as 0 bytes here, since the loops test for `> 0`. `none` is an
  -- IndexOutOfBoundsException, or fuel that ran out.
  abbrev pub Progress : Type 0
  Progress = Option (ℕ × List ℕ × I.State)

  unfoldable pub stored : List ℕ → ℕ → Option (List ℕ) × I.State → Progress
  stored buffer off (none, t) = some (0, buffer, t)
  stored buffer off (some d, t) = memcpy buffer off d (length d) >>= λ b. some (length d, b, t)

  -- `is.read(buffer, off, size)`
  unfoldable pub read_at : I.State → List ℕ → ℕ → ℕ → Progress
  unfolding stored
  read_at s buffer off size =
      let got = stored buffer off (I.read s size) in
      if leb (off + size) (length buffer) then got else none

  -- The test of the loops behind a read: they end with the number of bytes still to read.
  abbrev pub go_on : (ℕ → List ℕ → I.State → Progress) → ℕ → Progress → Progress
  go_on next size none = none
  go_on next size (some (n, b, t)) = if n == 0 then some (size, b, t) else next n b t

  -- `while ((n = is.read(buffer, n, size)) > 0) size -= n;`: each read goes to the offset `n` that
  -- the read before has returned. Each round but the last reads a byte at least, so `size + 1`
  -- rounds do.
  unfoldable pub header_loop : ℕ → I.State → List ℕ → ℕ → ℕ → Progress
  unfolding read_at
  header_loop zero s buffer n size = none
  header_loop (suc fuel) s buffer n size =
      go_on (λ n' b t. header_loop fuel t b n' (size - n')) size (read_at s buffer n size)

  -- The loop of the image: here the offset is the current position.
  unfoldable pub image_loop : ℕ → I.State → List ℕ → ℕ → ℕ → Progress
  unfolding read_at
  image_loop zero s buffer position size = none
  image_loop (suc fuel) s buffer position size =
      go_on (λ n b t. image_loop fuel t b (position + n) (size - n)) size
        (read_at s buffer position size)

  abbrev pub image_done : List ℕ → Progress → Received I.State
  image_done head none = threw
  image_done head (some (left, b, t)) =
      if left == 0
      then picture
          (record {
            image = take (get_picture_size head) (drop header_size b);
            ts = get_time_stamp head;
          })
          t
      else broke t

  abbrev pub header_done : Progress → Received I.State
  header_done none = threw
  header_done (some (left, b, t)) =
      let size = get_picture_size b in
      let got = image_done b (image_loop (size + 1) t b header_size size) in
      if left == 0 then got else broke t

  -- A round of the inner loop of `run`, from the reading of the header on.
  unfoldable pub receive_into : List ℕ → I.State → Received I.State
  unfolding header_loop image_loop
  receive_into buffer s = header_done (header_loop (header_size + 1) s buffer 0 header_size)

  -- The whole round: first the buffer is filled with 65.
  unfoldable pub receive : I.State → Received I.State
  unfolding receive_into
  receive s = receive_into (replicate maximum_picture_size 65) s

  abbrev pub put : (I.State → List Picture) → Received I.State → List Picture
  put next (picture p t) = p ∷ next t
  put next (broke t) = []
  put next threw = []

  -- The pictures that so many rounds put into the client's monitor.
  unfoldable pub receive_pictures : ℕ → I.State → List Picture
  receive_pictures zero s = []
  receive_pictures (suc rounds) s = put (receive_pictures rounds) (receive s)
