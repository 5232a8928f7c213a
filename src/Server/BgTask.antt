-- ===== src/Server/BgTask.antt =====
-- C/source/production/server.c: `bg_task` beside `server_quit` and `signal_to_bg_task`, as steps.
-- `bg_task` holds `global_mutex` from its lock to its end, less the waiting, so the test of
-- `running` and the way into `pthread_cond_wait` are one step.
use edaf55_project.Base.{◌⊎◌, inl, inr, ◌≡◌, ◌≢◌, refl, Bool, true, false, arith}

-- Where `bg_task` is: before the lock, in `pthread_cond_wait`, woken there, or at its end.
pub data Place : Type 0 where
  locking : Place
  asleep : Place
  awake : Place
  done : Place

-- What a broadcast does.
abbrev pub woken : Place → Place
woken locking = locking
woken asleep = awake
woken awake = awake
woken done = done

-- What `bg_task` does of itself, with the value of `running` that it reads.
pub data OwnStep : Bool → Place → Place → Type 0 where
  sleeps : OwnStep true locking asleep
  leaves : OwnStep false locking done
  sleeps_again : OwnStep true awake asleep
  leaves_later : OwnStep false awake done

-- Every step: one of `bg_task`, a wake-up for no reason, `server_quit`, or `signal_to_bg_task`. The
-- arguments are `running` and the place of `bg_task`.
pub data BgStep : Bool → Place → Bool → Place → Type 0 where
  owns : {b : Bool} {p q : Place} → OwnStep b p q → BgStep b p b q
  wakes_by_itself : {b : Bool} → BgStep b asleep b awake
  quits : {b : Bool} {p : Place} → BgStep b p false (woken p)
  signals : {b : Bool} {p : Place} → BgStep b p b (woken p)

pub data BgRuns (b : Bool) (p : Place) : Bool → Place → Type 0 where
  stays : BgRuns b p b p
  steps : {c d : Bool} {q r : Place} → BgRuns b p c q → BgStep c q d r → BgRuns b p d r

woken_not_asleep : (p : Place) → woken p ≢ asleep
woken_not_asleep locking e = absurd (ground arith)
woken_not_asleep asleep e = absurd (ground arith)
woken_not_asleep awake e = absurd (ground arith)
woken_not_asleep done e = absurd (ground arith)

-- A server that has quit, and a sleeping `bg_task`, do not come together.
BgStep-woken :
    {b c : Bool} {p q : Place} → BgStep b p c q → (b ≡ false → p ≢ asleep) → c ≡ false → q ≢ asleep
BgStep-woken (owns sleeps) h off = absurd (ground arith)
BgStep-woken (owns leaves) h off = ground arith
BgStep-woken (owns sleeps_again) h off = absurd (ground arith)
BgStep-woken (owns leaves_later) h off = ground arith
BgStep-woken wakes_by_itself h off = ground arith
BgStep-woken (quits {p = p}) h off = woken_not_asleep p
BgStep-woken (signals {p = p}) h off = woken_not_asleep p

BgRuns-woken : {b : Bool} {p : Place} → BgRuns true locking b p → b ≡ false → p ≢ asleep
BgRuns-woken stays off = absurd (ground arith)
BgRuns-woken (steps run s) off = BgStep-woken s (BgRuns-woken run) off

leaving : (p : Place) → p ≢ asleep → (p ≡ done) ⊎ OwnStep false p done
leaving locking h = inr leaves
leaving asleep h = absurd (h refl)
leaving awake h = inr leaves_later
leaving done h = inl refl

-- No wake-up is lost: in every run to a state in which the server has quit, `bg_task` is not asleep;
-- it is at its end, or the next step that it makes of itself ends it.
pub quit_awake :
    (p : Place) → BgRuns true locking false p → (p ≢ asleep) × ((p ≡ done) ⊎ OwnStep false p done)
quit_awake p run = let up = BgRuns-woken run refl in (up, leaving p up)
