-- ===== src/ClientMonitor/Running/Checks.antt =====
-- The synchronisation check of `putPicture` in ClientMonitor.java, and the pictures.
use edaf55_project.Base.{
  ℕ, ◌≡◌, refl, ◌∙◌, ap, List, [], ◌∷◌, ◌++◌, Option, some, Bool, true, false, ◌||◌, length, leb,
  if◌then◌else◌, if-cases, Bool-cases, inl, inr, arith,
}
use edaf55_project.Memory.{◌>>=◌}
use edaf55_project.ClientMonitor.{
  Monitor, Side, Cam, cam1, cam2, side, other, with_stamps, clear, sub_long, is_minus, in_tolerance,
  at_most_tolerance, remove_first, async_after, async_check, sync_check, sync_req_check,
  delayed_frames_tolerance,
}

-- The two monitors have the same pictures and modes.
abbrev pub SamePictures : Side → Side → Type 0
SamePictures s t = (t.pic_buffer ≡ s.pic_buffer) × (t.pic_available ≡ s.pic_available)

abbrev pub Same : Monitor → Monitor → Type 0
Same m n =
    SamePictures m.side1 n.side1
    × SamePictures m.side2 n.side2
    × (n.mode ≡ m.mode)
    × (n.mode_to_send ≡ m.mode_to_send)

abbrev pub IsSame : Monitor → Option Monitor → Type 0
IsSame m o = (n : Monitor) × (o ≡ some n) × Same m n

pub Same-refl : (m : Monitor) → Same m m
Same-refl m = ((refl, refl), (refl, refl), refl, refl)

with_stamps-Same : (cam : Cam) (l : List ℕ) (m : Monitor) → Same m (with_stamps cam l m)
with_stamps-Same cam1 l m = Same-refl m
with_stamps-Same cam2 l m = Same-refl m

async_after-Same : (m n : Monitor) → Same m n → Same m (async_after n)
unfolding async_after
async_after-Same m n v =
    if-cases {A = Monitor} (Same m)
      (leb delayed_frames_tolerance (length n.side1.sync_stamps)
        || leb delayed_frames_tolerance (length n.side2.sync_stamps))
      (λ _. v) (λ _. v)

sync_check-Same :
    (req : Bool) (cam : Cam) (stamp : ℕ) (m : Monitor) → Same m (sync_check req cam stamp m)
unfolding sync_check
sync_check-Same req cam stamp m =
    if-cases {A = Monitor} (Same m) (m.force_sync || req)
      (λ _. with_stamps-Same cam (stamp ∷ []) (record (clear m) { synced = true }))
      (λ _. Same-refl m)

-- A list whose last time stamp is far enough is not emptied.
remove_first-some :
    (xs : List ℕ) (stamp last : ℕ)
    → at_most_tolerance (sub_long stamp last) ≡ false
    → (l : List ℕ) × (remove_first (xs ++ (stamp ∷ [])) last ≡ some l)
unfolding remove_first
remove_first-some [] stamp last far = (stamp ∷ [], rw far)
remove_first-some (x ∷ xs) stamp last far =
    elim (Bool-cases (at_most_tolerance (sub_long x last))) [
      | inl yes-eq ↦ let (l, e) = remove_first-some xs stamp last far in (l, rw (yes-eq, e))
      | inr no-eq ↦ (x ∷ (xs ++ (stamp ∷ [])), rw no-eq)
    ]

far_enough :
    (d : ℕ) (b : Bool) → (in_tolerance d || is_minus d || b) ≡ false → at_most_tolerance d ≡ false
far_enough d b h = ground arith

async_check-Same :
    (cam : Cam) (stamp last : ℕ) (m : Monitor)
    → IsSame m
        (async_check (in_tolerance (sub_long stamp last)) (sub_long stamp last) cam stamp last m)
unfolding async_check
async_check-Same cam stamp last m =
    let diff = sub_long stamp last in
    let stamps = (side cam m).sync_stamps in
    let left : Option Monitor = remove_first (stamps ++ (stamp ∷ [])) last >>= λ l.
    some (async_after (with_stamps cam l m)) in
    elim (Bool-cases (in_tolerance diff || is_minus diff || m.force_sync)) [
      | inl yes-eq ↦ (clear m, ap (λ b. if b then some (clear m) else left) yes-eq, Same-refl m)
      | inr no-eq ↦
          let (l, e) = remove_first-some stamps stamp last (far_enough diff m.force_sync no-eq) in
          (
            async_after (with_stamps cam l m),
            ap (λ b. if b then some (clear m) else left) no-eq
                ∙ ap (λ o. o >>= λ l. some (async_after (with_stamps cam l m))) e,
            async_after-Same m (with_stamps cam l m) (with_stamps-Same cam l m),
          )
    ]

-- The check never throws: the loop of `asyncCheck` ends before its list is empty, since the time
-- stamp that was added last is too far from the other camera's.
pub sync_req_check-Same :
    (cam : Cam) (stamp : ℕ) (m : Monitor) → IsSame m (sync_req_check cam stamp m)
unfolding sync_req_check
sync_req_check-Same cam stamp m =
    let last = (side (other cam) m).last_pic in
    if-cases (IsSame m) m.synced (λ _. async_check-Same cam stamp last m)
      (λ _.
        let checked = sync_check (in_tolerance (sub_long stamp last)) cam stamp m in
        (checked, refl, sync_check-Same (in_tolerance (sub_long stamp last)) cam stamp m))
