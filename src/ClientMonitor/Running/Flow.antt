-- ===== src/ClientMonitor/Running/Flow.antt =====
-- What the calls of ClientMonitor.java do to the pictures of each camera.
use edaf55_project.Base.{
  ℕ, ◌<◌, ◌≡◌, refl, ◌∙◌, ap, sym, List, [], ◌∷◌, ◌++◌, append-nil, length, length-append, Option,
  some, true, arith,
}
use edaf55_project.ClientMonitor.{
  Monitor, Side, Shot, Cam, cam1, cam2, side, with_picture, baseline_of, convert_to_java_time,
}
use edaf55_project.ClientMonitor.Running.{Op, puts}
use edaf55_project.ClientMonitor.Running.Checks.{SamePictures}

abbrev pub images : List Shot → List (List ℕ)
images [] = []
images (p ∷ ps) = p.byte_stream ∷ images ps

-- The images of a camera among the pictures given, and among those that the calls put.
abbrev pub of_cam : Cam → List (Cam × Shot) → List (List ℕ)
of_cam c [] = []
of_cam cam1 ((cam1, p) ∷ ps) = p.byte_stream ∷ of_cam cam1 ps
of_cam cam2 ((cam2, p) ∷ ps) = p.byte_stream ∷ of_cam cam2 ps
of_cam cam1 ((cam2, p) ∷ ps) = of_cam cam1 ps
of_cam cam2 ((cam1, p) ∷ ps) = of_cam cam2 ps

abbrev pub put_by : Cam → Op → List (List ℕ)
put_by cam1 (puts cam1 now pic) = pic.byte_stream ∷ []
put_by cam2 (puts cam2 now pic) = pic.byte_stream ∷ []
put_by c o = []

abbrev pub put_images : Cam → List Op → List (List ℕ)
put_images c [] = []
put_images c (o ∷ os) = put_by c o ++ put_images c os

pub images-append :
    (ps : List Shot) (p : Shot) → images (ps ++ (p ∷ [])) ≡ images ps ++ (p.byte_stream ∷ [])
images-append [] p = refl
images-append (q ∷ ps) p = ap (λ l. q.byte_stream ∷ l) (images-append ps p)

pub of_cam-append :
    (c : Cam) (ps qs : List (Cam × Shot)) → of_cam c (ps ++ qs) ≡ of_cam c ps ++ of_cam c qs
of_cam-append c [] qs = refl
of_cam-append cam1 ((cam1, p) ∷ ps) qs = ap (λ l. p.byte_stream ∷ l) (of_cam-append cam1 ps qs)
of_cam-append cam2 ((cam2, p) ∷ ps) qs = ap (λ l. p.byte_stream ∷ l) (of_cam-append cam2 ps qs)
of_cam-append cam1 ((cam2, p) ∷ ps) qs = of_cam-append cam1 ps qs
of_cam-append cam2 ((cam1, p) ∷ ps) qs = of_cam-append cam2 ps qs

-- A picture that is available is in the buffer.
abbrev pub IsReady : Side → Type 0
IsReady s = s.pic_available ≡ true → 0 < length s.pic_buffer

-- What a call does to the fields of a camera, with the images given and put.
abbrev pub Flow : Side → Side → List (List ℕ) → List (List ℕ) → Type 0
Flow s t given added = IsReady t × (given ++ images t.pic_buffer ≡ images s.pic_buffer ++ added)

pub Same-Flow : (s t : Side) → IsReady s → SamePictures s t → Flow s t [] []
Same-Flow s t ready (b, a) = (
  λ h. ground (arith, ap length b, ready (sym a ∙ h)),
  ap images b ∙ sym (append-nil (images s.pic_buffer)),
)

pub with_picture-Flow :
    (now : ℕ) (pic : Shot) (s t : Side)
    → SamePictures (with_picture now pic s) t
    → Flow s t [] (pic.byte_stream ∷ [])
with_picture-Flow now pic s t (b, a) = (
  λ h. omega (
    arith,
    ap length b,
    length-append s.pic_buffer (convert_to_java_time (baseline_of now pic s) pic ∷ []),
  ),
  ap images b ∙ images-append s.pic_buffer (convert_to_java_time (baseline_of now pic s) pic),
)

abbrev pub AllReady : Monitor → Type 0
AllReady m = (c : Cam) → IsReady (side c m)

-- A call returns, and moves the pictures of both cameras as it should.
abbrev pub Moves : Monitor → Op → Option (Monitor × List (Cam × Shot)) → Type 0
Moves m op o =
    (n : Monitor) × (out : List (Cam × Shot)) × (o ≡ some (n, out))
    × ((c : Cam) → Flow (side c m) (side c n) (of_cam c out) (put_by c op))

-- A call that leaves the pictures alone.
abbrev pub SameSides : Monitor → Monitor → Type 0
SameSides m n = SamePictures m.side1 n.side1 × SamePictures m.side2 n.side2

pub SameSides-AllReady : (m n : Monitor) → AllReady m → SameSides m n → AllReady n
SameSides-AllReady m n ready v cam1 = (Same-Flow m.side1 n.side1 (ready cam1) v.0).0
SameSides-AllReady m n ready v cam2 = (Same-Flow m.side2 n.side2 (ready cam2) v.1).0

pub SameSides-Moves :
    (m n : Monitor) (op : Op)
    → AllReady m
    → SameSides m n
    → put_by cam1 op ≡ []
    → put_by cam2 op ≡ []
    → Moves m op (some (n, []))
SameSides-Moves m n op ready v none1 none2 = (n, [], refl, flows)
  where
    flows : (c : Cam) → Flow (side c m) (side c n) [] (put_by c op)
    flows cam1 = rw none1 (Same-Flow m.side1 n.side1 (ready cam1) v.0)
    flows cam2 = rw none2 (Same-Flow m.side2 n.side2 (ready cam2) v.1)
