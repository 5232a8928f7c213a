-- ===== src/Tests/Monitor.antt =====
-- The client's monitor on short sequences of calls.
use edaf55_project.Base.{
  ℕ, ◌≡◌, refl, List, [], ◌∷◌, ◌++◌, some, none, true, codes, arith, length, leb, if◌then◌else◌,
}
use edaf55_project.ClientMonitor.{
  Monitor, Shot, Cam, cam1, cam2, side, put_picture, get_picture, gives, set_mode, new_monitor,
  get_mode, get_new_mode, with_stamps, delayed_frames_tolerance,
}
use edaf55_project.ClientMonitor.Delay.{check_all, given_up, check_all-counted}
use edaf55_project.ClientMonitor.Running.{Op, puts, gets, sets_mode, detects, step, run}
use edaf55_project.ClientMonitor.Running.Flow.{images, of_cam, put_images}
use edaf55_project.ClientMonitor.Running.Fifo.{run-put_images}
use edaf55_project.ClientMonitor.Running.Modes.{set_mode-HasMode}
use edaf55_project.ClientMonitor.Running.Waiting.{get_picture-idle}

abbrev shot : Shot
shot = record { byte_stream = codes "jpg"; time_stamp = 5 }

abbrev next_shot : Shot
next_shot = record { byte_stream = codes "JPG"; time_stamp = 45 }

-- Two pictures are put and two are asked for.
abbrev calls : List Op
calls = puts cam1 1000 shot ∷ puts cam1 1040 next_shot ∷ gets cam1 ∷ gets cam1 ∷ []

run-put_images_example :
    (n : Monitor) × (out : List (Cam × Shot)) × (run calls new_monitor ≡ some (n, out))
    × ((c : Cam) → of_cam c out ++ images (side c n).pic_buffer ≡ put_images c calls)
run-put_images_example = run-put_images calls

set_mode-HasMode_example :
    (m : Monitor) × (seen : List (Cam × Shot)) × (run calls new_monitor ≡ some (m, seen))
    × (n : Monitor) × (out : List (Cam × Shot)) × (run
          (detects cam1 true ∷ sets_mode 0 ∷ detects cam2 true ∷ [])
          (set_mode 1 m)
        ≡ some (n, out))
    × (get_mode n ≡ 1)
    × (get_new_mode 0 n ≡ none)
set_mode-HasMode_example =
    set_mode-HasMode calls (detects cam1 true ∷ sets_mode 0 ∷ detects cam2 true ∷ []) 0 (refl, tt)

both_put :
    (m : Monitor) × (run (puts cam1 1000 shot ∷ puts cam1 1040 next_shot ∷ []) new_monitor
      ≡ some (m, []))
unfolding run step put_picture
both_put = (_, refl)

first_got : (p : Shot) × (n : Monitor) × (get_picture cam1 both_put.0 ≡ gives p n)
unfolding both_put get_picture
first_got = (_, _, refl)

get_picture-idle_example :
    (k : Monitor) × (out : List (Cam × Shot)) × (run
        (gets cam1 ∷ detects cam1 true ∷ gets cam1 ∷ [])
        first_got.1
      ≡ some (k, out))
    × (of_cam cam1 out ≡ [])
    × (images k.side1.pic_buffer ≡ images (first_got.1).side1.pic_buffer)
get_picture-idle_example =
    get_picture-idle cam1 (puts cam1 1000 shot ∷ puts cam1 1040 next_shot ∷ [])
      (gets cam1 ∷ detects cam1 true ∷ gets cam1 ∷ []) both_put.0 first_got.1 [] first_got.0
      both_put.1 first_got.2 refl

-- The second picture is left in the buffer.
left_over_image : images (first_got.1).side1.pic_buffer ≡ codes "JPG" ∷ []
unfolding first_got both_put
left_over_image = refl

-- The second camera's last picture is of the time 1000.
abbrev synchronous : Monitor
synchronous = record new_monitor {
  synced = true;
  side2 = record (new_monitor.side2) { last_pic = 1000 };
}

abbrev late_stamps : List ℕ
late_stamps = 1300 ∷ 1340 ∷ 1380 ∷ 1420 ∷ 1460 ∷ 1500 ∷ 1540 ∷ 1580 ∷ 1620 ∷ 1660 ∷ []

check_all-counted_example :
    check_all cam1 late_stamps synchronous
    ≡ some (
        if leb delayed_frames_tolerance (length late_stamps)
        then given_up synchronous
        else with_stamps cam1 late_stamps synchronous)
check_all-counted_example =
    check_all-counted cam1 synchronous late_stamps refl refl refl refl
      (
        (refl, refl),
        (
          (refl, refl),
          (
            (refl, refl),
            (
              (refl, refl),
              (
                (refl, refl),
                ((refl, refl), ((refl, refl), ((refl, refl), ((refl, refl), ((refl, refl), tt))))),
              ),
            ),
          ),
        ),
      )
      (omega arith)
