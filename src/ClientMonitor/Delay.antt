-- ===== src/ClientMonitor/Delay.antt =====
-- When ClientMonitor.java leaves the synchronous mode.
use mathlib.Core.Path.{subst}
use edaf55_project.Base.{
  ℕ, ◌+◌, ◌≤◌, ◌<◌, ◌≡◌, refl, ◌∙◌, ap, sym, List, [], ◌∷◌, ◌++◌, append-nil, append_assoc, length,
  length-append, Option, some, true, false, ◌||◌, leb, if◌then◌else◌, Bool-cases, inl, inr, arith,
}
use edaf55_project.Memory.{◌>>=◌}
use edaf55_project.ClientMonitor.{
  Monitor, Cam, cam1, cam2, side, other, with_stamps, clear, sub_long, is_minus, in_tolerance,
  at_most_tolerance, remove_first, async_after, async_check, sync_check, sync_req_check,
  delayed_frames_tolerance,
}

-- The time stamp is more than 200 milliseconds behind the other camera's last picture.
abbrev pub IsLate : ℕ → ℕ → Type 0
IsLate last stamp =
    (in_tolerance (sub_long stamp last) ≡ false) × (is_minus (sub_long stamp last) ≡ false)

abbrev pub AllLate : ℕ → List ℕ → Type 0
AllLate last [] = Unit
AllLate last (t ∷ ts) = IsLate last t × AllLate last ts

-- The checks of pictures of one camera, one after the other, with their time stamps.
unfoldable pub check_all : Cam → List ℕ → Monitor → Option Monitor
check_all cam [] m = some m
check_all cam (t ∷ ts) m = sync_req_check cam t m >>= check_all cam ts

remove_first-late :
    (last : ℕ) (xs : List ℕ) (t : ℕ)
    → AllLate last xs
    → IsLate last t
    → remove_first (xs ++ (t ∷ [])) last ≡ some (xs ++ (t ∷ []))
unfolding remove_first
remove_first-late last [] t h (far, after) =
    let stays : at_most_tolerance (sub_long t last) ≡ false = ground arith in rw stays
remove_first-late last (x ∷ xs) t ((far, after), h) late =
    let stays : at_most_tolerance (sub_long x last) ≡ false = ground arith in rw stays

abbrev pub last_of_other : Cam → Monitor → ℕ
last_of_other cam n = (side (other cam) n).last_pic

sync_req_check-late :
    (cam : Cam) (t : ℕ) (n : Monitor)
    → n.synced ≡ true
    → n.force_sync ≡ false
    → AllLate (last_of_other cam n) (side cam n).sync_stamps
    → IsLate (last_of_other cam n) t
    → sync_req_check cam t n
      ≡ some (async_after (with_stamps cam ((side cam n).sync_stamps ++ (t ∷ [])) n))
unfolding sync_req_check async_check
sync_req_check-late cam t n is_synced free h (far, after) =
    let last = last_of_other cam n in
    let d = sub_long t last in
    let stamps = (side cam n).sync_stamps in
    let left : Option Monitor =
      remove_first (stamps ++ (t ∷ [])) last >>= λ l. some (async_after (with_stamps cam l n)) in
    let whole : Option Monitor =
      if in_tolerance d || is_minus d || n.force_sync then some (clear n) else left in
    let goes_on : (in_tolerance d || is_minus d || n.force_sync) ≡ false = rw (far, after, free) in
    ap (λ b. if b then whole else some (sync_check (in_tolerance d) cam t n)) is_synced
    ∙ ap (λ b. if b then some (clear n) else left) goes_on
    ∙ ap (λ o. o >>= λ l. some (async_after (with_stamps cam l n)))
        (remove_first-late last stamps t h (far, after))

-- The monitor that has given up: no stamps, and not synchronous.
abbrev pub given_up : Monitor → Monitor
given_up m = record (clear m) { synced = false }

-- What `asyncCheck` leaves where the other camera has no stamps.
async_after-alone :
    (cam : Cam) (l : List ℕ) (n : Monitor)
    → (side (other cam) n).sync_stamps ≡ []
    → async_after (with_stamps cam l n)
      ≡ (if leb delayed_frames_tolerance (length l) then given_up n else with_stamps cam l n)
unfolding async_after
async_after-alone cam1 l n none_other =
    let alone : (leb delayed_frames_tolerance (length l)
          || leb delayed_frames_tolerance (length n.side2.sync_stamps))
        ≡ leb delayed_frames_tolerance (length l) =
      ground (arith, ap length none_other) in
    ap (λ b. if b then given_up n else with_stamps cam1 l n) alone
async_after-alone cam2 l n none_other =
    let alone : (leb delayed_frames_tolerance (length n.side1.sync_stamps)
          || leb delayed_frames_tolerance (length l))
        ≡ leb delayed_frames_tolerance (length l) =
      ground (arith, ap length none_other) in
    ap (λ b. if b then given_up n else with_stamps cam2 l n) alone

-- Only the stamps of the camera differ between `m` and `n`.
record Differs (cam : Cam) (l : List ℕ) (m n : Monitor) : Type 0 where
  synced_eq : n.synced ≡ m.synced
  force_eq : n.force_sync ≡ m.force_sync
  last_eq : last_of_other cam n ≡ last_of_other cam m
  own_eq : (side cam n).sync_stamps ≡ l
  other_eq : (side (other cam) n).sync_stamps ≡ (side (other cam) m).sync_stamps
  again : (k : List ℕ) → with_stamps cam k n ≡ with_stamps cam k m
  given_up_eq : given_up n ≡ given_up m

with_stamps-Differs : (cam : Cam) (l : List ℕ) (m : Monitor) → Differs cam l m (with_stamps cam l m)
with_stamps-Differs cam1 l m = record {
  synced_eq = refl;
  force_eq = refl;
  last_eq = refl;
  own_eq = refl;
  other_eq = refl;
  again = λ k. refl;
  given_up_eq = refl;
}
with_stamps-Differs cam2 l m = record {
  synced_eq = refl;
  force_eq = refl;
  last_eq = refl;
  own_eq = refl;
  other_eq = refl;
  again = λ k. refl;
  given_up_eq = refl;
}

AllLate-append :
    (last : ℕ) (xs : List ℕ) (t : ℕ)
    → AllLate last xs
    → IsLate last t
    → AllLate last (xs ++ (t ∷ []))
AllLate-append last [] t h late = (late, tt)
AllLate-append last (x ∷ xs) t (a, h) late = (a, AllLate-append last xs t h late)

abbrev counted : Cam → List ℕ → Monitor → Monitor
counted cam l m =
    if leb delayed_frames_tolerance (length l) then given_up m else with_stamps cam l m

no_length : (xs : List ℕ) → length xs ≡ 0 → xs ≡ []
no_length [] h = refl
no_length (x ∷ xs) h = absurd (omega arith)

leb→le : (a b : ℕ) → leb a b ≡ true → a ≤ b
leb→le a b h = ground arith

own_stamps : (cam : Cam) (m : Monitor) → with_stamps cam (side cam m).sync_stamps m ≡ m
own_stamps cam1 m = refl
own_stamps cam2 m = refl

-- One check more, behind the late stamps `xs`.
check-counted :
    (cam : Cam) (m : Monitor) (t : ℕ) (xs : List ℕ)
    → m.synced ≡ true
    → m.force_sync ≡ false
    → (side (other cam) m).sync_stamps ≡ []
    → AllLate (last_of_other cam m) xs
    → IsLate (last_of_other cam m) t
    → sync_req_check cam t (with_stamps cam xs m) ≡ some (counted cam (xs ++ (t ∷ [])) m)
check-counted cam m t xs is_synced free none_other late now =
    let n = with_stamps cam xs m in
    let v = with_stamps-Differs cam xs m in
    let late' : AllLate (last_of_other cam n) (side cam n).sync_stamps =
      subst (λ l. AllLate l (side cam n).sync_stamps) (sym v.last_eq)
        (subst (AllLate (last_of_other cam m)) (sym v.own_eq) late) in
    let now' : IsLate (last_of_other cam n) t = subst (λ l. IsLate l t) (sym v.last_eq) now in
    let l = xs ++ (t ∷ []) in
    sync_req_check-late cam t n (v.synced_eq ∙ is_synced) (v.force_eq ∙ free) late' now'
    ∙ ap (λ ys. some (async_after (with_stamps cam (ys ++ (t ∷ [])) n))) v.own_eq
    ∙ ap (λ k. some (async_after k)) (v.again l)
    ∙ ap some (async_after-alone cam l m none_other)

check_all-from :
    (cam : Cam) (m : Monitor) (ts xs : List ℕ)
    → m.synced ≡ true
    → m.force_sync ≡ false
    → (side (other cam) m).sync_stamps ≡ []
    → AllLate (last_of_other cam m) xs
    → AllLate (last_of_other cam m) ts
    → length xs < delayed_frames_tolerance
    → length xs + length ts ≤ delayed_frames_tolerance
    → check_all cam ts (with_stamps cam xs m) ≡ some (counted cam (xs ++ ts) m)
unfolding check_all
check_all-from cam m [] xs is_synced free none_other late later few most =
    let below : leb delayed_frames_tolerance (length xs) ≡ false = ground arith in
    ap (λ b. some (if b then given_up m else with_stamps cam xs m)) (sym below)
    ∙ ap (λ l. some (counted cam l m)) (sym (append-nil xs))
check_all-from cam m (t ∷ ts) xs is_synced free none_other late (now, later) few most =
    let l = xs ++ (t ∷ []) in
    let whole : l ++ ts ≡ xs ++ (t ∷ ts) = append_assoc xs (t ∷ []) ts in
    let size = length-append xs (t ∷ []) in
    ap (λ o. o >>= check_all cam ts) (check-counted cam m t xs is_synced free none_other late now)
    ∙ elim (Bool-cases (leb delayed_frames_tolerance (length l))) [
      | inr no-eq ↦
          ap (λ b. check_all cam ts (if b then given_up m else with_stamps cam l m)) no-eq
          ∙ check_all-from cam m ts l is_synced free none_other
              (AllLate-append (last_of_other cam m) xs t late now) later (ground arith)
              (omega (arith, size))
          ∙ ap (λ k. some (counted cam k m)) whole
      | inl yes-eq ↦
          let e : ts ≡ [] =
            no_length ts (omega (arith, size, leb→le delayed_frames_tolerance (length l) yes-eq)) in
          ap (λ us. check_all cam us (counted cam l m)) e
          ∙ ap (λ us. some (counted cam (xs ++ (t ∷ us)) m)) (sym e)
    ]

-- A synchronous monitor that is not forced to be and has no stamps sees up to ten pictures of one
-- camera, each more than 200 milliseconds later than the last picture of the other: below ten, it
-- keeps their time stamps and stays synchronous; with the tenth, it is not synchronous any more and
-- has no stamps again. No check throws an exception.
pub check_all-counted :
    (cam : Cam) (m : Monitor) (ts : List ℕ)
    → m.synced ≡ true
    → m.force_sync ≡ false
    → (side cam m).sync_stamps ≡ []
    → (side (other cam) m).sync_stamps ≡ []
    → AllLate (last_of_other cam m) ts
    → length ts ≤ delayed_frames_tolerance
    → check_all cam ts m
      ≡ some (if leb delayed_frames_tolerance (length ts) then given_up m else with_stamps cam ts m)
check_all-counted cam m ts is_synced free none_own none_other late most =
    ap (check_all cam ts) (sym (ap (λ l. with_stamps cam l m) (sym none_own) ∙ own_stamps cam m))
    ∙ check_all-from cam m ts [] is_synced free none_other tt late (omega arith) (omega arith)
