-- ===== src/ModeSender/Agrees.antt =====
-- The mode of the server behind the client's.
use mathlib.Core.Path.{subst}
use edaf55_project.Base.{
  ℕ, ◌≡◌, ◌≤◌, refl, ◌∙◌, ap, ap₂, sym, append_assoc, List, [], ◌∷◌, ◌++◌, none, ◌⊎◌, inl, inr, ℤ,
  pos, arith,
}
use edaf55_project.CameraMonitor
use edaf55_project.CameraMonitor.{CameraMonitor, flip_pic_take_send}
use edaf55_project.ClientMonitor.{Monitor, get_new_mode}
use edaf55_project.ClientMonitor.Running.Keeps.{step-Keeps}
use edaf55_project.Server.Tasks.{
  Shared, System, Step, by_taker, by_sender, by_mode, by_other, begin, Move, handle, ModeMove,
  disconnected, set, OtherMove, other_lock, other_unlock, other_broadcast, taker, sender, Pc,
  ModePc, mode_reading, mode_setting,
}
use edaf55_project.ModeSender.{
  Chain, ChainStep, calls, sends, others, reads, sets, goes_on, ChainReach, at_begin, after,
  begin_chain, pack,
}
use edaf55_project.ModeSender.Bits.{SendsBit, SendsBit-SameModes, SendsBit-OpKeeps}

-- The steps of the other threads leave the mode.
taker-mode : {sh sh' : Shared} {p q : Pc} → Move taker sh p sh' q → sh'.mon.mode ≡ sh.mon.mode
unfolding flip_pic_take_send
taker-mode (handle p) = refl
taker-mode _ = ground arith

sender-mode : {sh sh' : Shared} {p q : Pc} → Move sender sh p sh' q → sh'.mon.mode ≡ sh.mon.mode
unfolding flip_pic_take_send
sender-mode (handle p) = refl
sender-mode _ = ground arith

other-mode : {sh sh' : Shared} → OtherMove sh sh' → sh'.mon.mode ≡ sh.mon.mode
other-mode (other_lock h) = refl
other-mode (other_unlock h) = refl
other-mode other_broadcast = refl

mode-mode :
    {sh sh' : Shared} {p q : ModePc} → ModeMove sh p sh' q → q ≡ p → sh'.mon.mode ≡ sh.mon.mode
mode-mode set e = cc
mode-mode disconnected e = refl
mode-mode _ e = ground arith

Step-mode : {s t : System} → Step s t → t.mode_pc ≡ s.mode_pc → t.sh.mon.mode ≡ s.sh.mon.mode
Step-mode (by_taker mv) e = taker-mode mv
Step-mode (by_sender mv) e = sender-mode mv
Step-mode (by_mode mv) e = mode-mode mv e
Step-mode (by_other mv) e = other-mode mv

-- The byte that has been read and not been set, and the mode behind some bytes.
abbrev in_hand : ModePc → List ℕ
in_hand (mode_setting (pos b)) = b ∷ []
in_hand _ = []

abbrev last_told : ℤ → List ℕ → ℤ
last_told mode [] = mode
last_told mode (b ∷ bs) = last_told (pos b) bs

last_told-append : (mode : ℤ) (bs : List ℕ) (b : ℕ) → last_told mode (bs ++ (b ∷ [])) ≡ pos b
last_told-append mode [] b = refl
last_told-append mode (c ∷ bs) b = last_told-append (pos c) bs b

abbrev under_way : Chain → List ℕ
under_way c = in_hand c.sys.mode_pc ++ c.wire

-- Behind the bytes under way, the server has the mode that was sent last; or none was sent yet.
abbrev Told : ℤ → ℤ → List ℕ → ℕ → Type 0
Told start mode bs sent =
    (last_told mode bs ≡ pos (pack sent)) ⊎ ((bs ≡ []) × (mode ≡ start) × (sent ≡ 0))

abbrev IsTold : ℤ → Chain → Type 0
IsTold start c = Told start c.sys.sh.mon.mode (under_way c) c.sender_mode

others-IsTold :
    (start : ℤ) (c : Chain) (s : System)
    → s.mode_pc ≡ c.sys.mode_pc
    → s.sh.mon.mode ≡ c.sys.sh.mon.mode
    → IsTold start c
    → IsTold start (record c { sys = s })
others-IsTold start c s e f v =
    subst (λ m. Told start m (in_hand s.mode_pc ++ c.wire) c.sender_mode) (sym f)
      (subst (λ pc. Told start c.sys.sh.mon.mode (in_hand pc ++ c.wire) c.sender_mode) (sym e) v)

Told-cons :
    (start mode : ℤ) (b : ℕ) (bs : List ℕ) (k : ℕ)
    → Told start mode (b ∷ bs) k
    → Told start (pos b) bs k
Told-cons start mode b bs k (inl told) = inl told
Told-cons start mode b bs k (inr (none_left, _, _)) = cc

step-IsTold : (start : ℤ) {c d : Chain} → ChainStep c d → IsTold start c → IsTold start d
unfolding CameraMonitor.set_mode
step-IsTold start (calls op h q) v = v
step-IsTold start {c} (sends mode q) v = inl (
    ap (last_told c.sys.sh.mon.mode)
      (sym (append_assoc (in_hand c.sys.mode_pc) c.wire (pack mode ∷ [])))
    ∙ last_told-append c.sys.sh.mon.mode (under_way c) (pack mode))
step-IsTold start {c} (others {s} st e) v = others-IsTold start c s e (Step-mode st e) v
step-IsTold start {c} (reads at there) v =
    subst (λ bs. Told start c.sys.sh.mon.mode bs c.sender_mode)
      (ap₂ (λ pc w. in_hand pc ++ w) at there) v
step-IsTold start {c} (sets {byte} at) v =
    Told-cons start c.sys.sh.mon.mode byte c.wire c.sender_mode
      (subst (λ pc. Told start c.sys.sh.mon.mode (in_hand pc ++ c.wire) c.sender_mode) at v)
step-IsTold start {c} (goes_on at h) v =
    subst (λ pc. Told start c.sys.sh.mon.mode (in_hand pc ++ c.wire) c.sender_mode) at v

step-SendsBit : {c d : Chain} → ChainStep c d → SendsBit c.client → SendsBit d.client
step-SendsBit {c} (calls op {m} {out} h q) v =
    step-Keeps SendsBit SendsBit-SameModes op c.client (SendsBit-OpKeeps op h) v m out q
step-SendsBit _ v = v

reach-IsTold :
    (start : ℤ) {c d : Chain}
    → ChainReach c d
    → IsTold start c
    → SendsBit c.client
    → IsTold start d × SendsBit d.client
reach-IsTold start at_begin v b = (v, b)
reach-IsTold start (after run st) v b =
    let (v', b') = reach-IsTold start run v b in (step-IsTold start st v', step-SendsBit st b')

-- `getNewMode` waits where the mode is the one to send.
get_new_mode-waits : (k : ℕ) (m : Monitor) → get_new_mode k m ≡ none → k ≡ m.mode_to_send
unfolding get_new_mode
get_new_mode-waits k m h = ground arith

pack-bit : (k : ℕ) → k ≤ 1 → pack k ≡ k
unfolding pack
pack-bit k h = ground arith

-- While the connection lasts and when all is quiet, that is, the sender waits for a new mode, no
-- byte is under way, and `update_mode_task` waits in its `read`, the server has the mode that the
-- client's monitor says; or the client has sent none, its mode is the first one still, and the
-- server has the mode that it had when its threads began.
pub ChainReach-mode :
    (m : CameraMonitor) {c : Chain} (b : ℕ)
    → ChainReach (begin_chain (begin m)) c
    → get_new_mode c.sender_mode c.client ≡ none
    → c.wire ≡ []
    → c.sys.mode_pc ≡ mode_reading (pos b)
    → (CameraMonitor.get_mode c.sys.sh.mon ≡ pos c.client.mode_to_send)
      ⊎ ((c.client.mode_to_send ≡ 0)
          × (CameraMonitor.get_mode c.sys.sh.mon ≡ CameraMonitor.get_mode m))
unfolding CameraMonitor.get_mode
ChainReach-mode m {c} b run quiet none_left at =
    let start = m.mode in
    let (v, bit) = reach-IsTold start run (inr (refl, refl, refl)) (omega arith) in
    let same = get_new_mode-waits c.sender_mode c.client quiet in
    let v' : Told start c.sys.sh.mon.mode [] c.sender_mode =
      subst (λ bs. Told start c.sys.sh.mon.mode bs c.sender_mode)
        (ap₂ (λ pc w. in_hand pc ++ w) at none_left) v in
    elim v' [
      | inl told ↦ inl (told ∙ ap pos (ap pack same ∙ pack-bit c.client.mode_to_send bit))
      | inr (_, mode, first) ↦ inr (sym same ∙ first, mode)
    ]
