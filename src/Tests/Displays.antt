-- ===== src/Tests/Displays.antt =====
-- The client's display: pictures in synchronous mode.
use edaf55_project.Base.{ℕ, ◌≡◌, ◌-◌, ◌+◌, ◌↔◌, refl, [], ◌∷◌, none, true, arith}
use edaf55_project.ClientMonitor.{cam1}
use edaf55_project.DisplayMonitor.{
  Display, Clock, waits, new_display, sync_delay, update_picture, updated, shown, wait_of,
  check_delay, updates, apply, apply_all,
}
use edaf55_project.DisplayMonitor.Delays.{held_back, update_picture-held_back}
use edaf55_project.DisplayMonitor.Lists.{IsShort, apply_all-IsShort}

-- A picture with the stamp 900 was shown at 1000.
abbrev shown_before : Display
shown_before = record new_display { showed_time = 1000; last_time_stamp = 900; is_synced = true }

-- The clock stands at this time all along.
abbrev clock_at : ℕ → Clock
clock_at t = record { at_wait = t; at_shown = t; at_delay = t; at_start = t; at_check = t }

-- The next one with the stamp 940 is due at 1040; at 1050 it waits ten milliseconds more.
late_wait : (sync_delay 1050 940 shown_before).0 ≡ waits 10
unfolding sync_delay wait_of
late_wait = refl

update_picture-held_back_example :
    ((sync_delay 1040 940 shown_before).0 ≡ held_back 1040 (1000 + 940 - 900))
    × ((update_picture cam1 (clock_at 1040) 940 shown_before ≡ none) ↔ (1040 ≡ 1000 + 940 - 900))
update_picture-held_back_example =
    update_picture-held_back cam1 (clock_at 1040) 940 shown_before refl (omega arith) (omega arith)
      (omega arith) (omega arith) (omega arith) (omega arith)

abbrev one_shown : Display
one_shown = record new_display {
  showed_time = 1000;
  last_time_stamp = 900;
  delays1 = 100 ∷ [];
  time_of_start = 1000;
}

apply_all-IsShort_example : IsShort one_shown
unfolding apply_all apply update_picture shown updated check_delay sync_delay
apply_all-IsShort_example = apply_all-IsShort (updates cam1 (clock_at 1000) 900 ∷ []) one_shown refl
