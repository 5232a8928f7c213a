-- ===== src/Server/Stream/Effects.antt =====
-- What the steps do to the packet in the monitor, to the camera and to the connection.
use mathlib.Core.Path.{subst}
use mathlib.Core.Option.{some-injective}
use edaf55_project.Base.{
  ℕ, ◌+◌, ◌≤◌, ◌≡◌, refl, ◌∙◌, ap, ap₂, sym, List, [], ◌∷◌, ◌++◌, length, length-append, drop,
  if◌then◌else◌, Option, none, some, Bool, true, false, pos, arith,
}
use edaf55_project.Memory.{◌>>=◌}
use edaf55_project.Socket.{Socket, IsLawful}
use edaf55_project.FakeCapture.{File, MediaFrame, capture_get_frame}
use edaf55_project.FakeCapture.Cycle.{capture_get_frame-Holds}
use edaf55_project.Camera.{Camera}
use edaf55_project.CameraMonitor.{CameraMonitor, bufsize, set_mode, flip_pic_take_send}
use edaf55_project.Server.Frames.{try_get_frame, try_send_frame, client_send_frame}
use edaf55_project.Server.Frames.Taking.{try_get_frame-taken}
use edaf55_project.Server.Frames.Delivery.{
  packet_of, IsBuffer, saved, saved-IsBuffer, send_saved, length-packet_of,
}
use edaf55_project.Server.Tasks.{
  Picture, current, System, Step, by_taker, by_sender, by_mode, by_other, Move, handle, ModeMove,
  OtherMove, taker, sender, Shared, Pc, ModePc, set, other_lock,
}
use edaf55_project.Server.Stream.Shows.{Shows}

-- Only `handle` touches the packet in the monitor.
abbrev pub SamePacket : CameraMonitor → CameraMonitor → Type 0
SamePacket m n = (n.pic_packet ≡ m.pic_packet)

snoc_ne : (ps : List Picture) (p : Picture) → ps ++ (p ∷ []) ≡ ps → ⊥
snoc_ne ps p e = omega (arith, ap length e, length-append ps (p ∷ []))

taker-SamePacket :
    {sh sh' : Shared} {p q : Pc}
    → Move taker sh p sh' q
    → sh'.pics ≡ sh.pics
    → SamePacket sh.mon sh'.mon
unfolding flip_pic_take_send
taker-SamePacket {sh} (handle p) e = absurd (snoc_ne sh.pics p e)
taker-SamePacket _ e = ground arith

sender-SamePacket :
    {sh sh' : Shared} {p q : Pc} → Move sender sh p sh' q → SamePacket sh.mon sh'.mon
unfolding flip_pic_take_send
sender-SamePacket (handle p) = refl
sender-SamePacket _ = ground arith

mode-SamePacket : {sh sh' : Shared} {p q : ModePc} → ModeMove sh p sh' q → SamePacket sh.mon sh'.mon
unfolding set_mode
mode-SamePacket set = refl
mode-SamePacket _ = ground arith

other-SamePacket : {sh sh' : Shared} → OtherMove sh sh' → SamePacket sh.mon sh'.mon
other-SamePacket (other_lock h) = refl
other-SamePacket _ = ground arith

pub Step-SamePacket :
    {s t : System} → Step s t → t.sh.pics ≡ s.sh.pics → SamePacket s.sh.mon t.sh.mon
Step-SamePacket (by_taker mv) e = taker-SamePacket mv e
Step-SamePacket (by_sender mv) e = sender-SamePacket mv
Step-SamePacket (by_mode mv) e = mode-SamePacket mv
Step-SamePacket (by_other mv) e = other-SamePacket mv

-- A call that returns has taken the branch of a frame that fits.
branch_taken :
    (b : Bool) (x : ℕ × CameraMonitor) (cam cam' : Camera) (code : ℕ) (m' : CameraMonitor)
    → (let got : Option (ℕ × CameraMonitor × Camera) =
          (if b then some x else none) >>= λ r. some (r.0, r.1, cam) in
        got ≡ some (code, m', cam'))
    → (b ≡ true) × (m' ≡ x.1) × (cam' ≡ cam)
branch_taken true x cam cam' code m' h = (refl, cc, cc)
branch_taken false x cam cam' code m' h = cc

saved-Shows :
    (f : MediaFrame) (local : List ℕ) (m : CameraMonitor)
    → IsBuffer local
    → f.sz ≡ length f.bytes
    → 10 + f.sz ≤ bufsize
    → Shows (current (saved f (drop (10 + f.sz) local) m)) f
saved-Shows f local m hl whole fits = record {
  rest = drop (10 + f.sz) local;
  bytes_eq = refl;
  size_eq = refl;
  whole = whole;
  fits = fits;
  buffer = saved-IsBuffer local f m hl whole fits;
}

-- What a call of `try_get_frame` that returns has done.
pub try_get_frame-Shows :
    (disk : List ℕ → File) (sec nsec : ℕ) (local : List ℕ) (f : MediaFrame) (code : ℕ)
    (cam cam' : Camera) (m m' : CameraMonitor)
    → IsBuffer local
    → IsBuffer m.pic_packet
    → (capture_get_frame disk sec nsec cam.stream).frame ≡ some f
    → try_get_frame disk sec nsec local cam m ≡ some (code, m', cam')
    → Shows (current m') f
      × (m' ≡ saved f (drop (10 + f.sz) local) m)
      × (cam'.stream ≡ (capture_get_frame disk sec nsec cam.stream).stream)
try_get_frame-Shows disk sec nsec local f code cam cam' m m' hl hm got runs =
    let whole = (capture_get_frame-Holds disk sec nsec cam.stream f got).2.sz_eq in
    let (fits, is_saved, is_cam) =
      branch_taken _ _ _ _ _ _
        (rw got at (sym (try_get_frame-taken disk sec nsec local cam m hl hm) ∙ runs)) in
    (
      rw is_saved (saved-Shows f local m hl whole (ground arith)),
      is_saved,
      ap (λ (c : Camera). c.stream) is_cam,
    )

-- The socket takes every buffer that it is offered in one go.
pub record TakesAll (S : Socket) : Type 0 where
  pub lawful : IsLawful S
  pub all_of_it : (s : S.State) (d : List ℕ) → (S.send s d).0 ≡ pos (length d)

-- The monitor that shows a frame is one that the frame was saved in.
Shows-saved : (f : MediaFrame) (m : CameraMonitor) (v : Shows (current m) f) → m ≡ saved f v.rest m
Shows-saved f m v = ap₂ (λ p z. record m { pic_packet = p; packet_sz = z }) v.bytes_eq v.size_eq

-- What a call of `try_send_frame` that returns has sent.
pub try_send_frame-sent :
    (S : Socket) (T : TakesAll S) (local : List ℕ) (f : MediaFrame) (m : CameraMonitor) (code : ℕ)
    (s t : S.State)
    → IsBuffer local
    → Shows (current m) f
    → try_send_frame S s local m ≡ some (code, t)
    → S.wire t ≡ S.wire s ++ packet_of f
unfolding try_send_frame
try_send_frame-sent S T local f m code s t hl v runs =
    let whole_send : S.send s (packet_of f) ≡ (pos (10 + f.sz), (S.send s (packet_of f)).1) =
      ap (λ z. (z, (S.send s (packet_of f)).1))
        (T.all_of_it s (packet_of f) ∙ ap pos (length-packet_of f v.whole)) in
    let again = Shows-saved f m v in
    let (runs', wired) =
      send_saved S T.lawful local v.rest f m s _ hl
        (subst (λ n. IsBuffer n.pic_packet) again v.buffer) v.whole v.fits whole_send in
    let e : some (code, t) ≡ some (0, (S.send s (packet_of f)).1) =
      sym runs ∙ ap (client_send_frame S s local) again ∙ runs' in
    ap (λ p. S.wire p.1) (some-injective _ _ e) ∙ wired
