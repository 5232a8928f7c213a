-- ===== src/DisplayMonitor/Lists.antt =====
-- DisplayMonitor.java: the two lists of delays.
use edaf55_project.Base.{
  ℕ, ◌≤◌, ◌<◌, ◌≡◌, refl, sym, List, [], ◌∷◌, ◌++◌, Option, none, some, length, length-append,
  length-drop, arith, leb, ◌==◌, if-cases, not, ◌&&◌,
}
use mathlib.Core.Option.{some-injective}
use mathlib.Core.Path.{subst}
use edaf55_project.Memory.{◌>>=◌}
use edaf55_project.ClientMonitor.{Cam, cam1, cam2, sub_long}
use edaf55_project.DisplayMonitor.{
  Display, Clock, Waiting, no_wait, waits, for_ever, new_display, max_delays, mode_idle,
  check_delay, with_delays, delays_of, sync_delay, updated, shown, update_picture, Update, updates,
  sets_synced, sets_mode, apply, apply_all,
}

abbrev pub IsShort : Display → Type 0
IsShort m = (length m.delays1 < max_delays) × (length m.delays2 < max_delays)

-- `checkDelay` leaves a list that is short, and both lists of the monitor as they are.
abbrev KeepsLists : Display → ℕ × Display × List ℕ → Type 0
KeepsLists m r = (length r.2 < max_delays) × (r.1.delays1 ≡ m.delays1) × (r.1.delays2 ≡ m.delays2)

check_delay-KeepsLists :
    (at_start at_check : ℕ) (m : Display) (ls : List ℕ)
    → length ls ≤ max_delays
    → KeepsLists m (check_delay at_start at_check m ls)
unfolding check_delay
check_delay-KeepsLists at_start at_check m ls h =
    if-cases (KeepsLists m) (m.mode == mode_idle) (λ _. (omega arith, refl, refl))
      (λ _. (
        if-cases (λ (r : List ℕ). length r < max_delays) (leb max_delays (length ls))
            (λ _. omega (arith, length-drop 1 ls)) (λ few. ground arith),
        refl,
        refl,
      ))

with_delays-IsShort :
    (cam : Cam) (m : Display) (r : ℕ × Display × List ℕ)
    → IsShort m
    → KeepsLists m r
    → IsShort (with_delays cam r).1
with_delays-IsShort cam1 m r (h1, h2) (few, e1, e2) =
    (few, subst (λ l. length l < max_delays) (sym e2) h2)
with_delays-IsShort cam2 m r (h1, h2) (few, e1, e2) =
    (subst (λ l. length l < max_delays) (sym e1) h1, few)

delays_of-short : (cam : Cam) (m : Display) → IsShort m → length (delays_of cam m) < max_delays
delays_of-short cam1 m (h1, h2) = h1
delays_of-short cam2 m (h1, h2) = h2

updated-IsShort :
    (cam : Cam) (clock : Clock) (stamp : ℕ) (m : Display)
    → IsShort m
    → IsShort (updated cam clock stamp m).1
unfolding updated
updated-IsShort cam clock stamp m short =
    let m' : Display = record m { showed_time = clock.at_shown; last_time_stamp = stamp } in
    let ls = delays_of cam m' in
    let d = sub_long clock.at_delay stamp ∷ [] in
    with_delays-IsShort cam m' (check_delay clock.at_start clock.at_check m' (ls ++ d)) short (
      check_delay-KeepsLists clock.at_start clock.at_check m' (ls ++ d)
        (omega (arith, length-append ls d, delays_of-short cam m' short)))

shown-IsShort :
    (cam : Cam) (clock : Clock) (stamp : ℕ) (w : Waiting) (m : Display) (p : ℕ × Display)
    → IsShort m
    → shown cam clock stamp (w, m) ≡ some p
    → IsShort p.1
unfolding shown
shown-IsShort cam clock stamp no_wait m p short e =
    subst (λ q. IsShort q.1) (some-injective _ _ e) (updated-IsShort cam clock stamp m short)
shown-IsShort cam clock stamp (waits k) m p short e =
    subst (λ q. IsShort q.1) (some-injective _ _ e) (updated-IsShort cam clock stamp m short)
shown-IsShort cam clock stamp for_ever m p short e = absurd (cc e)

-- `syncDelayThread` does not touch the lists.
sync_delay-IsShort : (now stamp : ℕ) (m : Display) → IsShort m → IsShort (sync_delay now stamp m).1
unfolding sync_delay
sync_delay-IsShort now stamp m short =
    if-cases (λ (r : Waiting × Display). IsShort r.1) (m.is_synced && not (m.showed_time == 0))
      (λ _. short) (λ _. short)

bind-some :
    {A B : Type 0} (o : Option A) (f : A → Option B) (b : B)
    → (o >>= f) ≡ some b
    → (a : A) × (o ≡ some a) × (f a ≡ some b)
bind-some none f b e = absurd (cc e)
bind-some (some a) f b e = (a, refl, e)

apply-IsShort : (op : Update) (m n : Display) → IsShort m → apply op m ≡ some n → IsShort n
unfolding apply update_picture
apply-IsShort (updates cam clock stamp) m n short e =
    let w = sync_delay clock.at_wait stamp m in
    let (p, q, same) = bind-some (shown cam clock stamp w) (λ p. some (p.1)) n e in
    subst (λ d. IsShort d) (some-injective p.1 n same)
      (shown-IsShort cam clock stamp w.0 w.1 p (sync_delay-IsShort clock.at_wait stamp m short) q)
apply-IsShort (sets_synced b) m n short e = subst (λ d. IsShort d) (some-injective _ n e) short
apply-IsShort (sets_mode k) m n short e = subst (λ d. IsShort d) (some-injective _ n e) short

apply_all-IsShort_from :
    (ops : List Update) (m n : Display) → IsShort m → apply_all ops m ≡ some n → IsShort n
unfolding apply_all
apply_all-IsShort_from [] m n short e = subst (λ d. IsShort d) (some-injective m n e) short
apply_all-IsShort_from (op ∷ ops) m n short e =
    let (k, now, later) = bind-some (apply op m) (apply_all ops) n e in
    apply_all-IsShort_from ops k n (apply-IsShort op m k short now) later

-- Whatever pictures come, whatever the clock says and whatever modes are set, as long as the calls
-- return: neither list of delays ever holds more than 179 of them.
pub apply_all-IsShort :
    (ops : List Update) (m : Display) → apply_all ops new_display ≡ some m → IsShort m
apply_all-IsShort ops m = apply_all-IsShort_from ops new_display m (omega arith, omega arith)
