-- ===== src/MotionServer/BgTask.antt =====
-- C/source/production/motion_server.c: `bg_task` beside `do_quit` and `signal_to_bg_task`, as
-- steps. `do_quit` holds `global_mutex` throughout, so it is one step, and so is the way from
-- `pthread_mutex_lock` into `pthread_cond_wait`; the test of `running` is made without the mutex.
use edaf55_project.Base.{◌≡◌, ◌≢◌, refl, Bool, true, false}

-- Where `bg_task` is: at the test of `running`, before the lock, in `pthread_cond_wait`, woken
-- there, or at its end.
pub data Place : Type 0 where
  testing : Place
  locking : Place
  asleep : Place
  awake : Place
  done : Place

-- What a broadcast does.
abbrev pub woken : Place → Place
woken testing = testing
woken locking = locking
woken asleep = awake
woken awake = awake
woken done = done

-- What `bg_task` does of itself, with the value of `running` that it reads.
pub data OwnStep : Bool → Place → Place → Type 0 where
  goes_on : OwnStep true testing locking
  leaves : OwnStep false testing done
  sleeps : {b : Bool} → OwnStep b locking asleep
  resumes : {b : Bool} → OwnStep b awake testing

-- Every step: one of `bg_task`, a wake-up for no reason, `do_quit`, or `signal_to_bg_task`, which
-- `ui_task` can still call when the server has quit, since it tests `running` before `getchar`. The
-- arguments are `running` and the place of `bg_task`.
pub data BgStep : Bool → Place → Bool → Place → Type 0 where
  owns : {b : Bool} {p q : Place} → OwnStep b p q → BgStep b p b q
  wakes_by_itself : {b : Bool} → BgStep b asleep b awake
  quits : {b : Bool} {p : Place} → BgStep b p false (woken p)
  signals : {b : Bool} {p : Place} → BgStep b p b (woken p)

pub data BgRuns : Bool → Place → Bool → Place → Type 0 where
  stays : {b : Bool} {p : Place} → BgRuns b p b p
  steps : {b c d : Bool} {p q r : Place} → BgRuns b p c q → BgStep c q d r → BgRuns b p d r

asleep_after_quit : (p : Place) → p ≢ done → BgRuns true p false asleep
asleep_after_quit testing h = steps (steps (steps stays (owns goes_on)) quits) (owns sleeps)
asleep_after_quit locking h = steps (steps stays quits) (owns sleeps)
asleep_after_quit asleep h =
    steps (steps (steps (steps (steps stays signals) (owns resumes)) (owns goes_on)) quits)
      (owns sleeps)
asleep_after_quit awake h =
    steps (steps (steps (steps stays (owns resumes)) (owns goes_on)) quits) (owns sleeps)
asleep_after_quit done h = absurd (h refl)

no_own : (q : Place) → ¬ OwnStep false asleep q
no_own q move = elim move [ ]

stuck : (b : Bool) (q : Place) → BgStep false asleep b q → (b ≡ false) × (q ≡ awake)
stuck b q wakes_by_itself = (refl, refl)
stuck b q quits = (refl, refl)
stuck b q signals = (refl, refl)
stuck b q (owns move) = absurd (no_own q move)

-- From any place but its end, `bg_task` can be asleep after `do_quit`, so that the broadcast is
-- lost. It has no step of its own from there; and every step that there is, which is one of the
-- others or a wake-up for no reason, wakes it, with `running` still false.
pub lost_wake_up :
    (p : Place)
    → p ≢ done
    → (b : Bool) (q : Place) → BgStep false asleep b q
    → BgRuns true p false asleep × (¬ OwnStep false asleep q) × (b ≡ false) × (q ≡ awake)
lost_wake_up p alive b q step =
    let (off, up) = stuck b q step in (asleep_after_quit p alive, no_own q, off, up)
