-- ===== src/DisplayMonitor.antt =====
-- edaf55_project_java/src/client/DisplayMonitor.java: what the two displays of the client share, and
-- how long a picture is held back.
pub mod Delays
pub mod Lists
use edaf55_project.Base.{
  ℕ, zero, suc, ◌+◌, ◌-◌, ◌/◌, ◌%◌, ◌^◌, List, [], ◌∷◌, ◌++◌, Option, none, some, Bool, true, false,
  not, ◌&&◌, leb, length, drop, ◌==◌, if◌then◌else◌,
}
use edaf55_project.Memory.{◌>>=◌}
use edaf55_project.ClientMonitor.{Cam, cam1, cam2, add_long, sub_long, is_minus}

-- `ClientMonitor.MODE_IDLE`
abbrev pub mode_idle : ℕ
mode_idle = 1

-- The value -1 of `timeOfStart`.
abbrev pub unset : ℕ
unset = 2 ^ 64 - 1

abbrev pub max_delays : ℕ
max_delays = 180

-- The fields; the two lists are the rolling averages.
pub record Display : Type 0 where
  pub showed_time : ℕ
  pub last_time_stamp : ℕ
  pub time_diff : ℕ
  pub average : ℕ
  pub is_synced : Bool
  pub mode : ℕ
  pub delays1 : List ℕ
  pub delays2 : List ℕ
  pub time_of_start : ℕ

-- `DisplayMonitor(gui)`
abbrev pub new_display : Display
new_display = record {
  showed_time = 0;
  last_time_stamp = 0;
  time_diff = 0;
  average = 0;
  is_synced = false;
  mode = 0;
  delays1 = [];
  delays2 = [];
  time_of_start = unset;
}

-- What `currentTimeMillis` gives in the order of its calls: for `wait`, for `showedTime`, for the
-- delay, and twice in `checkDelay`.
pub record Clock : Type 0 where
  pub at_wait : ℕ
  pub at_shown : ℕ
  pub at_delay : ℕ
  pub at_start : ℕ
  pub at_check : ℕ

-- What `wait(timeout)` does: nothing, since a negative timeout is an exception, which is ignored; it
-- waits so many milliseconds; or, for 0, until a `notify`, and nobody calls that here.
pub data Waiting : Type 0 where
  no_wait : Waiting
  waits : ℕ → Waiting
  for_ever : Waiting

unfoldable pub wait_of : ℕ → Waiting
wait_of timeout =
    if is_minus timeout then no_wait else if timeout == 0 then for_ever else waits timeout

-- `syncDelayThread(pic)`
unfoldable pub sync_delay : ℕ → ℕ → Display → Waiting × Display
unfolding wait_of
sync_delay now stamp m =
    let diff = sub_long stamp m.last_time_stamp in
    let held = wait_of (sub_long now (add_long m.showed_time diff)) in
    if m.is_synced && not (m.showed_time == 0)
    then (held, record m { time_diff = diff })
    else (no_wait, m)

-- `l / size` of a `long`, towards 0.
abbrev pub div_long : ℕ → ℕ → ℕ
div_long l n = if is_minus l then sub_long 0 (sub_long 0 l / n) else l / n

abbrev pub average_of : ℕ → ℕ → List ℕ → ℕ
average_of n sum [] = sum
average_of n sum (l ∷ ls) = average_of n (add_long sum (div_long l n)) ls

abbrev pub last_of : ℕ → List ℕ → ℕ
last_of l [] = l
last_of l (k ∷ ls) = last_of k ls

-- `checkDelay(list)`: the label, the monitor and the list.
unfoldable pub check_delay : ℕ → ℕ → Display → List ℕ → ℕ × Display × List ℕ
check_delay at_start at_check m ls =
    let start = if m.time_of_start == unset then at_start else m.time_of_start in
    let passed = sub_long at_check start in
    let due = not (is_minus passed) && leb 2000 passed in
    let average = if due then average_of (length ls) 0 ls else m.average in
    let kept = if leb max_delays (length ls) then drop 1 ls else ls in
    if m.mode == mode_idle then (last_of 0 ls, record m { time_of_start = start }, []) else (
      average,
      record m { average = average; time_of_start = if due then unset else start },
      kept,
    )

abbrev pub with_delays : Cam → ℕ × Display × List ℕ → ℕ × Display
with_delays cam1 (label, m, ls) = (label, record m { delays1 = ls })
with_delays cam2 (label, m, ls) = (label, record m { delays2 = ls })

abbrev pub delays_of : Cam → Display → List ℕ
delays_of cam1 m = m.delays1
delays_of cam2 m = m.delays2

-- The rest of `updatePicture1` and `updatePicture2`, behind the waiting.
unfoldable pub updated : Cam → Clock → ℕ → Display → ℕ × Display
unfolding check_delay
updated cam clock stamp m =
    let m' = record m { showed_time = clock.at_shown; last_time_stamp = stamp } in
    let delay = sub_long clock.at_delay stamp in
    with_delays cam
      (check_delay clock.at_start clock.at_check m' (delays_of cam m' ++ (delay ∷ [])))

-- `none` where the waiting does not end.
unfoldable pub shown : Cam → Clock → ℕ → Waiting × Display → Option (ℕ × Display)
unfolding updated
shown cam clock stamp (no_wait, m) = some (updated cam clock stamp m)
shown cam clock stamp (waits ms, m) = some (updated cam clock stamp m)
shown cam clock stamp (for_ever, m) = none

-- `updatePicture1(pic)` and `updatePicture2(pic)`: the label that is set, and the monitor.
unfoldable pub update_picture : Cam → Clock → ℕ → Display → Option (ℕ × Display)
unfolding sync_delay shown
update_picture cam clock stamp m = shown cam clock stamp (sync_delay clock.at_wait stamp m)

-- `setSynced(syncMode)` and `setMode(mode)`
abbrev pub set_synced : Bool → Display → Display
set_synced sync_mode m = record m { is_synced = sync_mode }

abbrev pub set_mode : ℕ → Display → Display
set_mode mode m = record m { mode = mode }

-- The calls that the two `Display` threads make, one after the other.
pub data Update : Type 0 where
  updates : Cam → Clock → ℕ → Update
  sets_synced : Bool → Update
  sets_mode : ℕ → Update

unfoldable pub apply : Update → Display → Option Display
unfolding update_picture
apply (updates cam clock stamp) m = update_picture cam clock stamp m >>= λ p. some (p.1)
apply (sets_synced sync_mode) m = some (set_synced sync_mode m)
apply (sets_mode mode) m = some (set_mode mode m)

unfoldable pub apply_all : List Update → Display → Option Display
unfolding apply
apply_all [] m = some m
apply_all (op ∷ ops) m = apply op m >>= apply_all ops
