-- ===== src/Server/Stream/Shows.antt =====
-- Pictures in the monitor's format, and the frames that they show.
use edaf55_project.Base.{
  ℕ, suc, ◌+◌, ◌≤◌, ◌≡◌, refl, ◌∙◌, ap, sym, List, [], ◌∷◌, ◌++◌, length, length-append,
  append_assoc, append-nil, Option, none, some, pos, arith,
}
use edaf55_project.FakeCapture.{MediaFrame}
use edaf55_project.CameraMonitor.{bufsize}
use edaf55_project.Server.Frames.Delivery.{packet_of, IsBuffer}
use edaf55_project.Server.Tasks.{Picture}
use edaf55_project.Server.Stream.Relay.{packets, held_list}

-- The picture is the packet of the frame, with the rest of the array behind it.
pub record Shows (p : Picture) (f : MediaFrame) : Type 0 where
  pub rest : List ℕ
  pub bytes_eq : p.0 ≡ packet_of f ++ rest
  pub size_eq : p.1 ≡ pos (10 + f.sz)
  pub whole : f.sz ≡ length f.bytes
  pub fits : 10 + f.sz ≤ bufsize
  pub buffer : IsBuffer p.0

abbrev pub ShowsAll : List Picture → List MediaFrame → Type 0
ShowsAll [] [] = Unit
ShowsAll (p ∷ ps) (f ∷ fs) = Shows p f × ShowsAll ps fs
ShowsAll _ _ = ⊥

pub ShowsAll-length :
    (ps : List Picture) (fs : List MediaFrame) → ShowsAll ps fs → length ps ≡ length fs
ShowsAll-length [] [] h = refl
ShowsAll-length (p ∷ ps) (f ∷ fs) (_, h) = ap suc (ShowsAll-length ps fs h)
ShowsAll-length [] (f ∷ fs) h = elim h [ ]
ShowsAll-length (p ∷ ps) [] h = elim h [ ]

pub ShowsAll-append :
    (ps : List Picture) (fs : List MediaFrame) (p : Picture) (f : MediaFrame)
    → ShowsAll ps fs
    → Shows p f
    → ShowsAll (ps ++ (p ∷ [])) (fs ++ (f ∷ []))
ShowsAll-append [] [] p f h s = (s, tt)
ShowsAll-append (q ∷ ps) (g ∷ fs) p f (t, h) s = (t, ShowsAll-append ps fs p f h s)
ShowsAll-append [] (g ∷ fs) p f h s = elim h [ ]
ShowsAll-append (q ∷ ps) [] p f h s = elim h [ ]

-- If one picture more is shown than was sent, then it is of the frame that is held.
pub ShowsAll-held :
    (ps : List Picture) (fs : List MediaFrame) (p : Picture) (held : Option MediaFrame)
    → ShowsAll ps fs
    → ShowsAll (ps ++ (p ∷ [])) (fs ++ held_list held)
    → (f : MediaFrame) × (held ≡ some f) × Shows p f
ShowsAll-held [] [] p (some f) h (s, k) = (f, refl, s)
ShowsAll-held [] [] p none h k = elim k [ ]
ShowsAll-held (q ∷ ps) (g ∷ fs) p held (_, h) (_, k) = ShowsAll-held ps fs p held h k
ShowsAll-held [] (g ∷ fs) p held h k = elim h [ ]
ShowsAll-held (q ∷ ps) [] p held h k = elim h [ ]

-- If no picture more is shown than was sent, then no frame is held.
pub ShowsAll-none :
    (ps : List Picture) (fs : List MediaFrame) (held : Option MediaFrame)
    → ShowsAll ps fs
    → ShowsAll ps (fs ++ held_list held)
    → held ≡ none
ShowsAll-none ps fs none h k = refl
ShowsAll-none ps fs (some f) h k = absurd (
    omega (
      arith,
      ShowsAll-length ps fs h,
      ShowsAll-length ps (fs ++ (f ∷ [])) k,
      length-append fs (f ∷ []),
    ))

pub packets-append :
    (fs : List MediaFrame) (f : MediaFrame) → packets (fs ++ (f ∷ [])) ≡ packets fs ++ packet_of f
packets-append [] f = append-nil (packet_of f)
packets-append (g ∷ fs) f =
    ap (λ s. packet_of g ++ s) (packets-append fs f)
    ∙ sym (append_assoc (packet_of g) (packets fs) (packet_of f))
