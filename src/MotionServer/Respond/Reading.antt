-- ===== src/MotionServer/Respond/Reading.antt =====
-- What a client reads in a response of the motion server: an independent reader of the header and
-- of the three times, and that it finds what the server meant to say.
use edaf55_project.Base.{
  ℕ, ◌+◌, ◌≤◌, ◌≡◌, refl, ◌∙◌, List, [], ◌∷◌, ◌++◌, codes, drop, length, length-append, Option,
  some, ℤ, pos, arith, if◌then◌else◌,
}
use edaf55_project.Text.{strncmp, skip_spaces, atol, format_unsigned, format_long}
use edaf55_project.Text.Prefix.{AllNonzero}
use edaf55_project.Text.Decimal.{AllDigits, digits-AllDigits, atol-format_long}
use edaf55_project.Text.Print.{length-format_unsigned-le, strlen_nonzero, snprintf_fits}
use edaf55_project.MotionServer.Respond.{response}

-- What stands behind the first occurrence of a text.
unfoldable pub behind : List ℕ → List ℕ → List ℕ
behind p [] = []
behind p (c ∷ s) =
    let rest = behind p s in if strncmp (c ∷ s) p (length p) then rest else drop (length p) (c ∷ s)

-- The header field and the body, as a client reads them.
pub content_length : List ℕ → Option ℤ
content_length s = atol (behind (codes "Content-Length:") s)

pub body : List ℕ → List ℕ
body s = behind (codes "\n\n") s

behind_digits :
    (ds t : List ℕ) → AllDigits ds → behind (codes "\n\n") (ds ++ t) ≡ behind (codes "\n\n") t
unfolding behind strncmp
behind_digits [] t h = refl
behind_digits (d ∷ ds) t (hd, h) = ground (arith, behind_digits ds t h)

behind_header :
    (msg : List ℕ) → behind (codes "\n\n") (codes "\nContent-Type: text/plain\n\n" ++ msg) ≡ msg
unfolding behind strncmp
behind_header msg = refl

-- The three fronts that the server writes.
pub data IsFront : List ℕ → Type 0 where
  ok : IsFront (codes "HTTP/1.0 200 OK\nContent-Length:")
  not_found : IsFront (codes "HTTP/1.0 404 Not Found\nContent-Length: ")
  not_implemented : IsFront (codes "HTTP/1.0 501 Not Implemented\nContent-Length: ")

body_front :
    {front : List ℕ} (rest : List ℕ)
    → IsFront front
    → behind (codes "\n\n") (front ++ rest) ≡ behind (codes "\n\n") rest
unfolding behind strncmp
body_front rest ok = refl
body_front rest not_found = refl
body_front rest not_implemented = refl

length_front :
    {front : List ℕ} (rest : List ℕ) → IsFront front → content_length (front ++ rest) ≡ atol rest
unfolding content_length behind strncmp atol skip_spaces
length_front rest ok = refl
length_front rest not_found = refl
length_front rest not_implemented = refl

pub length_front_le : {front : List ℕ} → IsFront front → length front ≤ 45
length_front_le ok = omega arith
length_front_le not_found = omega arith
length_front_le not_implemented = omega arith

-- Everything behind the front, when nothing is cut.
unfoldable pub framed : (msg : List ℕ) → List ℕ
framed msg = format_unsigned (length msg) ++ (codes "\nContent-Type: text/plain\n\n" ++ msg)

pub length-framed : (msg : List ℕ) → length (framed msg) ≤ 47 + length msg
unfolding framed
length-framed msg = omega (
  arith,
  length-append (format_unsigned (length msg)) (codes "\nContent-Type: text/plain\n\n" ++ msg),
  length-format_unsigned-le (length msg),
)

pub response-framed :
    {front : List ℕ} (msg : List ℕ)
    → IsFront front
    → AllNonzero msg
    → length msg ≤ 100
    → response front msg ≡ front ++ framed msg
unfolding response framed
response-framed {front} msg f nz short = rw (strlen_nonzero msg nz) (
    snprintf_fits 1000 _
      (omega (arith, length-append front (framed msg), length-framed msg, length_front_le f)))

-- A response whose text is short and holds no 0 byte is read back: the header gives the length of
-- the text, and the text is what stands behind the blank line.
pub response_read :
    {front : List ℕ} (msg : List ℕ)
    → IsFront front
    → AllNonzero msg
    → length msg ≤ 100
    → (content_length (response front msg) ≡ some (pos (length msg)))
      × (body (response front msg) ≡ msg)
response_read {front} msg f nz short = (
  rw (response-framed msg f nz short, length_front (framed msg) f) number,
  rw (response-framed msg f nz short) text,
)
  where
    number : atol (framed msg) ≡ some (pos (length msg))
    number =
        unfold framed format_unsigned format_long in
        atol-format_long (pos (length msg)) b'\n' _ (omega arith) refl

    text : body (front ++ framed msg) ≡ msg
    text =
        unfold body framed format_unsigned in
        body_front _ f ∙ behind_digits _ _ (digits-AllDigits 20 (length msg)) ∙ behind_header msg
