-- ===== src/MotionDataReceiver.antt =====
-- edaf55_project_java/src/networking: MotionDataReceiver.java, MotionRequestSender.java and
-- MotionPack.java, with which the client asks the motion server and reads its answers.
pub mod Reads
pub mod Tokens
pub mod Times
use edaf55_project.Base.{
  ℕ, ◌+◌, ◌-◌, ◌*◌, List, [], ◌∷◌, Option, none, some, Bool, true, false, ◌&&◌, ℤ, pos, negsuc,
  codes, replicate, take, drop, ◌++◌, leb, ◌==◌, if◌then◌else◌,
}
use edaf55_project.Memory.{memcpy, ◌>>=◌}
use edaf55_project.Text.{is_digit, is_space, in_long}
use edaf55_project.PictureReciever.{InputStream, header_loop, Progress}

abbrev pub head_size : ℕ
head_size = 58

-- `new byte[100]`
abbrev pub new_buffer : List ℕ
new_buffer = replicate 100 0

-- `MotionPack.pack(buffer)`; `none` is an ArrayIndexOutOfBoundsException.
unfoldable pub pack_request : List ℕ → Option (List ℕ)
pack_request buffer = memcpy buffer 0 (codes "GET / ") 6

-- `Integer.parseInt(s)`; `none` is a NumberFormatException. An `int` has the 32 bits of `in_long`.
unfoldable pub number_of : ℕ → List ℕ → Option ℕ
number_of n [] = some n
number_of n (c ∷ s) =
    let rest = number_of (n * 10 + (c - b'0')) s in if is_digit c then rest else none

abbrev pub magnitude : Bool → List ℕ → Option ℤ
magnitude minus [] = none
magnitude minus (c ∷ s) = number_of 0 (c ∷ s) >>= in_long minus

unfoldable pub parse_int : List ℕ → Option ℤ
unfolding number_of
parse_int [] = none
parse_int (c ∷ s) =
    if c == b'-'
    then magnitude true s
    else if c == b'+'
    then magnitude false s
    else magnitude false (c ∷ s)

-- `s.trim()`: no bytes up to the blank at either end.
abbrev pub trim_front : List ℕ → List ℕ
trim_front [] = []
trim_front (c ∷ s) = let rest = trim_front s in if leb c b' ' then rest else c ∷ s

abbrev pub is_nil : List ℕ → Bool
is_nil [] = true
is_nil (c ∷ s) = false

abbrev pub trim_end : List ℕ → List ℕ
trim_end [] = []
trim_end (c ∷ s) = let rest = trim_end s in if is_nil rest && leb c b' ' then [] else c ∷ rest

abbrev pub trim : List ℕ → List ℕ
trim s = trim_front (trim_end s)

-- `s.replaceAll("\\s+", "")`
abbrev pub remove_spaces : List ℕ → List ℕ
remove_spaces [] = []
remove_spaces (c ∷ s) = let rest = remove_spaces s in if is_space c then rest else c ∷ rest

-- `StringTokenizer(s, ":")`: the pieces between the colons that are not empty.
abbrev pub push : ℕ → List (List ℕ) → List (List ℕ)
push c [] = (c ∷ []) ∷ []
push c (w ∷ ws) = (c ∷ w) ∷ ws

abbrev pub pieces : List ℕ → List (List ℕ)
pieces [] = [] ∷ []
pieces (c ∷ s) = let rest = pieces s in if c == b':' then [] ∷ rest else push c rest

abbrev pub nonempty : List (List ℕ) → List (List ℕ)
nonempty [] = []
nonempty ([] ∷ ws) = nonempty ws
nonempty ((c ∷ w) ∷ ws) = (c ∷ w) ∷ nonempty ws

abbrev pub parse_all : List (List ℕ) → Option (List ℤ)
parse_all [] = some []
parse_all (w ∷ ws) = parse_int (trim w) >>= λ z. parse_all ws >>= λ zs. some (z ∷ zs)

-- The three fields of `timeBuffer`, which are 0 at first; `none` is an exception.
abbrev pub three_of : List ℤ → Option (ℤ × ℤ × ℤ)
three_of [] = some (pos 0, pos 0, pos 0)
three_of (a ∷ []) = some (a, pos 0, pos 0)
three_of (a ∷ b ∷ []) = some (a, b, pos 0)
three_of (a ∷ b ∷ c ∷ []) = some (a, b, c)
three_of (a ∷ b ∷ c ∷ d ∷ zs) = none

-- `MotionPack.getTimes(buffer)`: `timeData` has the bytes from 64 on, and six more that are 0.
unfoldable pub get_times : List ℕ → Option (ℤ × ℤ × ℤ)
unfolding parse_int
get_times buffer =
    parse_all (nonempty (pieces (remove_spaces (drop 64 buffer ++ replicate 6 0)))) >>= three_of

-- `MotionPack.getTimeSize(buffer)`
unfoldable pub get_time_size : List ℕ → Option ℤ
unfolding parse_int
get_time_size buffer = parse_int (trim (take 3 (drop 31 buffer)))

-- What a round of the inner loop of `run` ends with: whether motion was detected, with the buffer;
-- a `break`; or an exception that ends the thread.
pub data Heard (S : Type 0) : Type 0 where
  heard : Bool → List ℕ → S → Heard S
  stopped : List ℕ → S → Heard S
  died : Heard S

abbrev pub is_positive : ℤ → Bool
is_positive (pos n) = leb 1 n
is_positive (negsuc n) = false

-- `local > lastMotionTime`, which is never assigned and so 0.
abbrev pub detected : Option (ℤ × ℤ × ℤ) → Option Bool
detected none = none
detected (some times) = some (is_positive times.1)

module _ (I : InputStream) where
  abbrev pub answered : Option Bool → List ℕ → I.State → Heard I.State
  answered none b t = died
  answered (some motion) b t = heard motion b t

  abbrev pub times_done : Progress I → Heard I.State
  times_done none = died
  times_done (some (left, b, t)) =
      let got = answered (detected (get_times b)) b t in if left == 0 then got else stopped b t

  abbrev pub size_done : Option ℤ → List ℕ → I.State → Heard I.State
  size_done none b t = died
  size_done (some (negsuc n)) b t = died
  size_done (some (pos n)) b t = times_done (header_loop I (n + 1) t b head_size n)

  abbrev pub head_done : Progress I → Heard I.State
  head_done none = died
  head_done (some (left, b, t)) =
      let got = size_done (get_time_size b) b t in if left == 0 then got else stopped b t

  -- A round of the inner loop of `run`. Both loops have the shape of `header_loop`: each read goes
  -- to the offset `n`, which is first 0 and 58, and then what the read before has returned.
  unfoldable pub receive_times : List ℕ → I.State → Heard I.State
  unfolding header_loop get_times get_time_size
  receive_times buffer s = head_done (header_loop I (head_size + 1) s buffer 0 head_size)
