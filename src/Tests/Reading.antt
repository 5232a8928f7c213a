-- ===== src/Tests/Reading.antt =====
-- The client's reading of streams that give their bytes in one piece or in several.
use edaf55_project.Base.{
  ℕ, zero, suc, ◌≡◌, ◌≤◌, ◌<◌, min, refl, ◌∙◌, ap, sym, List, [], ◌∷◌, ◌++◌, take, drop, length,
  replicate, Option, some, none, arith, codes, take-append, take-append-drop, length-take,
}
use mathlib.Core.Path.{subst}
use mathlib.Core.Option.{some-injective}
use edaf55_project.PictureReciever.{InputStream, IsStream, image_loop, header_loop}
use edaf55_project.PictureReciever.Loops.{filled_at, image_loop-filled_at}
use edaf55_project.PictureReciever.Pictures.{IsPrompt}
use edaf55_project.PictureReciever.Pieces.{header_loop-misplaced}
use edaf55_project.MotionDataReceiver.Reads.{IsWhole}
use edaf55_project.Packet.{get_picture_size}

-- A stream of bytes that gives all it is asked for, as far as it has them.
abbrev read_front : List ℕ → ℕ → Option (List ℕ) × List ℕ
read_front s zero = (some [], s)
read_front [] (suc n) = (none, [])
read_front (x ∷ xs) (suc n) = (some (x ∷ take n xs), drop n xs)

abbrev pub at_once : InputStream
at_once = record { State = List ℕ; read = read_front; remaining = λ s. s }

-- A stream whose reads give at most as many bytes as `limits` says, and one more.
record Pieces : Type 0 where
  limits : List ℕ
  bytes : List ℕ

abbrev read_piece : List ℕ → List ℕ → ℕ → Option (List ℕ) × Pieces
read_piece ls s zero = (some [], record { limits = ls; bytes = s })
read_piece ls [] (suc n) = (none, record { limits = ls; bytes = [] })
read_piece [] (x ∷ xs) (suc n) = (some (x ∷ take n xs), record { limits = []; bytes = drop n xs })
read_piece (l ∷ ls) (x ∷ xs) (suc n) =
    (some (x ∷ take (min l n) xs), record { limits = ls; bytes = drop (min l n) xs })

abbrev pieces : InputStream
pieces = record {
  State = Pieces;
  read = λ s n. read_piece s.limits s.bytes n;
  remaining = λ s. s.bytes;
}

-- What a read has to do with the bytes `s` before and `r` after it.
record IsPiece (s r d : List ℕ) (len : ℕ) : Type 0 where
  gives : s ≡ d ++ r
  at_most : length d ≤ len
  at_least : 0 < len → 0 < length d

front-IsPiece :
    (x : ℕ) (xs : List ℕ) (k n : ℕ) → k ≤ n → IsPiece (x ∷ xs) (drop k xs) (x ∷ take k xs) (suc n)
front-IsPiece x xs k n h = record {
  gives = ap (λ s. x ∷ s) (sym (take-append-drop k xs));
  at_most = omega (arith, length-take k xs);
  at_least = λ _. omega arith;
}

none-IsPiece : (s : List ℕ) → IsPiece s s [] 0
none-IsPiece s = record { gives = refl; at_most = omega arith; at_least = λ h. h }

-- It is the same of what a read is known to give.
known-IsPiece :
    {T : Type 0} (rest : T → List ℕ) (s : List ℕ) (len : ℕ) (d d' : List ℕ) (t t' : T)
    → IsPiece s (rest t) d len
    → ◌≡◌ {A = Option (List ℕ) × T} (some d, t) (some d', t')
    → IsPiece s (rest t') d' len
known-IsPiece rest s len d d' t t' v h =
    let e : d ≡ d' = some-injective d d' (ap (λ p. p.0) h) in
    let e' : t ≡ t' = ap (λ p. p.1) h in
    subst (λ u. IsPiece s (rest u) d' len) e' (subst (λ c. IsPiece s (rest t) c len) e v)

read_front-IsPiece :
    (s t : List ℕ) (len : ℕ) (d : List ℕ) → read_front s len ≡ (some d, t) → IsPiece s t d len
read_front-IsPiece s t zero d h = known-IsPiece (λ u. u) s 0 [] d s t (none-IsPiece s) h
read_front-IsPiece [] t (suc n) d h = cc
read_front-IsPiece (x ∷ xs) t (suc n) d h =
    known-IsPiece (λ u. u) (x ∷ xs) (suc n) (x ∷ take n xs) d (drop n xs) t
      (front-IsPiece x xs n n (omega arith)) h

read_front-ended : (s t : List ℕ) (len : ℕ) → read_front s len ≡ (none, t) → (s ≡ []) × (t ≡ [])
read_front-ended s t zero h = cc
read_front-ended [] t (suc n) h = (refl, sym (ap (λ p. p.1) h))
read_front-ended (x ∷ xs) t (suc n) h = cc

at_once-IsStream : IsStream at_once
at_once-IsStream = record {
  gives = λ s t len d h. (read_front-IsPiece s t len d h).gives;
  at_most = λ s t len d h. (read_front-IsPiece s t len d h).at_most;
  at_least = λ s t len d h. (read_front-IsPiece s t len d h).at_least;
  ended = λ s t len h. read_front-ended s t len h;
}

read_front-append : (d rest : List ℕ) → (read_front (d ++ rest) (length d)).0 ≡ some d
read_front-append [] rest = refl
read_front-append (x ∷ d) rest = ap (λ e. some (x ∷ e)) (take-append d rest)

pub at_once-IsPrompt : IsPrompt at_once
at_once-IsPrompt = record {
  stream = at_once-IsStream;
  prompt = λ s d rest few there.
      ap (λ (u : List ℕ). (read_front u (length d)).0) there ∙ read_front-append d rest;
}

pub at_once-IsWhole : IsWhole at_once
at_once-IsWhole = record {
  stream = at_once-IsStream;
  whole = λ s d rest there.
      ap (λ (u : List ℕ). (read_front u (length d)).0) there ∙ read_front-append d rest;
}

read_piece-IsPiece :
    (ls s : List ℕ) (t : Pieces) (len : ℕ) (d : List ℕ)
    → read_piece ls s len ≡ (some d, t)
    → IsPiece s t.bytes d len
read_piece-IsPiece ls s t zero d h =
    known-IsPiece (λ (u : Pieces). u.bytes) s 0 [] d (record { limits = ls; bytes = s }) t
      (none-IsPiece s) h
read_piece-IsPiece ls [] t (suc n) d h = cc
read_piece-IsPiece [] (x ∷ xs) t (suc n) d h =
    known-IsPiece (λ (u : Pieces). u.bytes) (x ∷ xs) (suc n) (x ∷ take n xs) d
      (record { limits = []; bytes = drop n xs }) t (front-IsPiece x xs n n (omega arith)) h
read_piece-IsPiece (l ∷ ls) (x ∷ xs) t (suc n) d h =
    known-IsPiece (λ (u : Pieces). u.bytes) (x ∷ xs) (suc n) (x ∷ take (min l n) xs) d
      (record { limits = ls; bytes = drop (min l n) xs }) t
      (front-IsPiece x xs (min l n) n (omega arith)) h

read_piece-ended :
    (ls s : List ℕ) (t : Pieces) (len : ℕ)
    → read_piece ls s len ≡ (none, t)
    → (s ≡ []) × (t.bytes ≡ [])
read_piece-ended ls s t zero h = cc
read_piece-ended ls [] t (suc n) h =
    (refl, sym (ap (λ (p : Option (List ℕ) × Pieces). p.1.bytes) h))
read_piece-ended [] (x ∷ xs) t (suc n) h = cc
read_piece-ended (l ∷ ls) (x ∷ xs) t (suc n) h = cc

pieces-IsStream : IsStream pieces
pieces-IsStream = record {
  gives = λ s t len d h. (read_piece-IsPiece s.limits s.bytes t len d h).gives;
  at_most = λ s t len d h. (read_piece-IsPiece s.limits s.bytes t len d h).at_most;
  at_least = λ s t len d h. (read_piece-IsPiece s.limits s.bytes t len d h).at_least;
  ended = λ s t len h. read_piece-ended s.limits s.bytes t len h;
}

-- Five bytes in pieces of two, one and two.
image_loop-filled_at_example :
    (t : Pieces) × (image_loop pieces 6
        (record { limits = 1 ∷ 0 ∷ []; bytes = codes "12345rest" })
        (codes "abcdefgh")
        2
        5
      ≡ some (0, filled_at (codes "abcdefgh") 2 (codes "12345"), t))
    × (t.bytes ≡ codes "rest")
image_loop-filled_at_example =
    image_loop-filled_at pieces pieces-IsStream 6
      (record { limits = 1 ∷ 0 ∷ []; bytes = codes "12345rest" }) (codes "abcdefgh") 2
      (codes "12345") (codes "rest") (omega arith) (omega arith) refl

-- A header of a frame of three bytes, in pieces of one, one and eight bytes.
header_loop-misplaced_example :
    (w : Pieces) × (header_loop pieces 11
        (record {
          limits = 0 ∷ 0 ∷ [];
          bytes = 1 ∷ 2 ∷ 0 ∷ 0 ∷ 0 ∷ 0 ∷ 0 ∷ 0 ∷ 3 ∷ 0 ∷ codes "jpg";
        })
        (replicate 13 65)
        0
        10
      ≡ some (0, 1 ∷ 0 ∷ 0 ∷ 0 ∷ 0 ∷ 0 ∷ 0 ∷ 3 ∷ 0 ∷ 65 ∷ codes "AAA", w))
    × (w.bytes ≡ codes "jpg")
header_loop-misplaced_example =
    header_loop-misplaced pieces pieces-IsStream _ _ _ _ (replicate 13 65) (1 ∷ []) (2 ∷ [])
      (0 ∷ 0 ∷ 0 ∷ 0 ∷ 0 ∷ 0 ∷ 3 ∷ 0 ∷ []) refl refl refl (omega arith) (omega arith) (omega arith)
      (omega arith) (omega arith)

-- The client then takes the frame to have 65 * 256 bytes.
misplaced_size : get_picture_size (1 ∷ 0 ∷ 0 ∷ 0 ∷ 0 ∷ 0 ∷ 0 ∷ 3 ∷ 0 ∷ 65 ∷ codes "AAA") ≡ 16640
unfolding get_picture_size
misplaced_size = refl
