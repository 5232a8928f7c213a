-- ===== src/ClientMonitor.antt =====
-- edaf55_project_java/src/client/ClientMonitor.java: what the threads of the client share. The
-- fields that come in pairs, one for each camera, are a record; cameras are numbered 1 and 2. A
-- `long` is the number of its 64 bits, with the arithmetic of two's complement. Calls that wait are
-- not interrupted.
pub mod Running
pub mod Delay
use edaf55_project.Base.{
  ℕ, ◌+◌, ◌-◌, ◌%◌, ◌^◌, List, [], ◌∷◌, ◌++◌, length, Option, none, some, Bool, true, false, ◌||◌,
  not, leb, ◌==◌, if◌then◌else◌,
}
use edaf55_project.Memory.{◌>>=◌}

-- `long` addition and subtraction, and the tests of a difference: `d < 0`, `d <= 200` and
-- `Math.abs(d) <= 200`, where `Math.abs` of the least `long` is negative.
abbrev pub add_long : ℕ → ℕ → ℕ
add_long a b = (a + b) % 2 ^ 64

abbrev pub sub_long : ℕ → ℕ → ℕ
sub_long a b = (a + (2 ^ 64 - b % 2 ^ 64)) % 2 ^ 64

abbrev pub sync_tolerance_millis : ℕ
sync_tolerance_millis = 200

abbrev pub delayed_frames_tolerance : ℕ
delayed_frames_tolerance = 10

abbrev pub is_minus : ℕ → Bool
is_minus d = leb (2 ^ 63) d

abbrev pub at_most_tolerance : ℕ → Bool
at_most_tolerance d = is_minus d || leb d sync_tolerance_millis

abbrev pub in_tolerance : ℕ → Bool
in_tolerance d =
    leb d sync_tolerance_millis || leb (2 ^ 64 - sync_tolerance_millis) d || d == 2 ^ 63

abbrev pub mode_auto : ℕ
mode_auto = 0

abbrev pub mode_movie : ℕ
mode_movie = 2

-- `Picture(byteStream, timeStamp)`
pub record Shot : Type 0 where
  pub byte_stream : List ℕ
  pub time_stamp : ℕ

pub data Cam : Type 0 where
  cam1 : Cam
  cam2 : Cam

abbrev pub other : Cam → Cam
other cam1 = cam2
other cam2 = cam1

-- The fields of one camera. `last_pic` is the time stamp of `lastPic1` or `lastPic2`.
pub record Side : Type 0 where
  pub pic_buffer : List Shot
  pub pic_available : Bool
  pub last_pic : ℕ
  pub sync_stamps : List ℕ
  pub baseline : ℕ
  pub motion_detected : Bool

pub record Monitor : Type 0 where
  pub mode : ℕ
  pub mode_to_send : ℕ
  pub force_sync : Bool
  pub synced : Bool
  pub mode_changed : Bool
  pub mode_is_set_to_auto : Bool
  pub side1 : Side
  pub side2 : Side

abbrev pub side : Cam → Monitor → Side
side cam1 m = m.side1
side cam2 m = m.side2

abbrev pub with_side : Cam → Side → Monitor → Monitor
with_side cam1 s m = record m { side1 = s }
with_side cam2 s m = record m { side2 = s }

abbrev pub new_side : Side
new_side = record {
  pic_buffer = [];
  pic_available = false;
  last_pic = 0;
  sync_stamps = [];
  baseline = 0;
  motion_detected = false;
}

-- `ClientMonitor()`
abbrev pub new_monitor : Monitor
new_monitor = record {
  mode = mode_auto;
  mode_to_send = 0;
  force_sync = false;
  synced = false;
  mode_changed = false;
  mode_is_set_to_auto = true;
  side1 = new_side;
  side2 = new_side;
}

unfoldable pub set_mode : ℕ → Monitor → Monitor
set_mode mode m =
    if mode == mode_auto
    then record m { mode_is_set_to_auto = true }
    else record m { mode = mode; mode_changed = true; mode_to_send = mode - 1 }

unfoldable pub set_forced_sync : Bool → Monitor → Monitor
set_forced_sync sync m = if sync then record m { force_sync = true } else m

-- Both `syncStamps` are cleared.
abbrev pub clear : Monitor → Monitor
clear m = record m {
  side1 = record (m.side1) { sync_stamps = [] };
  side2 = record (m.side2) { sync_stamps = [] };
}

-- The loop of `asyncCheck`; `none` is the NullPointerException of `peekFirst` on an empty list.
unfoldable pub remove_first : List ℕ → ℕ → Option (List ℕ)
remove_first [] last = none
remove_first (x ∷ xs) last =
    let rest = remove_first xs last in
    if at_most_tolerance (sub_long x last) then rest else some (x ∷ xs)

-- The end of `asyncCheck`.
unfoldable pub async_after : Monitor → Monitor
async_after m =
    if leb delayed_frames_tolerance (length m.side1.sync_stamps)
      || leb delayed_frames_tolerance (length m.side2.sync_stamps)
    then record (clear m) { synced = false }
    else m

abbrev pub with_stamps : Cam → List ℕ → Monitor → Monitor
with_stamps cam l m = with_side cam (record (side cam m) { sync_stamps = l }) m

-- `asyncCheck(syncReq, diff, …)`, for a picture of `cam` with the time stamp `stamp`.
unfoldable pub async_check : Bool → ℕ → Cam → ℕ → ℕ → Monitor → Option Monitor
unfolding remove_first async_after
async_check sync_req diff cam stamp last m =
    let left = remove_first ((side cam m).sync_stamps ++ (stamp ∷ [])) last >>= λ l.
    some (async_after (with_stamps cam l m)) in
    if sync_req || is_minus diff || m.force_sync then some (clear m) else left

-- `syncCheck(syncReq, …)` and what `syncReqCheck` does behind it.
unfoldable pub sync_check : Bool → Cam → ℕ → Monitor → Monitor
sync_check sync_req cam stamp m =
    if m.force_sync || sync_req
    then with_stamps cam (stamp ∷ []) (record (clear m) { synced = true })
    else m

-- `syncReqCheck(pic, otherLastPic, …)`
unfoldable pub sync_req_check : Cam → ℕ → Monitor → Option Monitor
unfolding async_check sync_check
sync_req_check cam stamp m =
    let last = (side (other cam) m).last_pic in
    let diff = sub_long stamp last in
    let checked = async_check (in_tolerance diff) diff cam stamp last m in
    if m.synced then checked else some (sync_check (in_tolerance diff) cam stamp m)

-- `baseline1` or `baseline2` behind the first lines of `putPicture`, at the time `now`.
abbrev pub baseline_of : ℕ → Shot → Side → ℕ
baseline_of now pic s = if s.baseline == 0 then sub_long now pic.time_stamp else s.baseline

-- `pic` behind `convertToJavaTime`.
abbrev pub convert_to_java_time : ℕ → Shot → Shot
convert_to_java_time baseline pic = record pic { time_stamp = add_long pic.time_stamp baseline }

-- The camera's fields with the picture added.
abbrev pub with_picture : ℕ → Shot → Side → Side
with_picture now pic s =
    let base = baseline_of now pic s in
    let converted = convert_to_java_time base pic in
    record s {
      pic_buffer = s.pic_buffer ++ (converted ∷ []);
      pic_available = true;
      last_pic = converted.time_stamp;
      baseline = base;
    }

-- `putPicture(pic, camNumber)`; `none` is an exception.
unfoldable pub put_picture : Cam → ℕ → Shot → Monitor → Option Monitor
unfolding sync_req_check
put_picture cam now pic m =
    let s = with_picture now pic (side cam m) in
    let m' = with_side cam s m in
    let checked = sync_req_check cam s.last_pic m' in
    if (side (other cam) m).last_pic == 0 then some m' else checked

-- What `getPicture` does: it waits, gives a picture, or throws a NoSuchElementException.
pub data Got : Type 0 where
  waits : Got
  gives : Shot → Monitor → Got
  no_element : Got

abbrev pub removed : Cam → Monitor → List Shot → Got
removed cam m [] = no_element
removed cam m (p ∷ ps) =
    gives p (with_side cam (record (side cam m) { pic_buffer = ps; pic_available = false }) m)

unfoldable pub get_picture : Cam → Monitor → Got
get_picture cam m =
    if (side cam m).pic_available then removed cam m (side cam m).pic_buffer else waits

-- `getModeUpdate()`; `none` waits.
unfoldable pub get_mode_update : Monitor → Option (Bool × Monitor)
get_mode_update m =
    if m.mode_changed then some (m.mode == mode_movie, record m { mode_changed = false }) else none

-- The mode for the motion that is seen.
abbrev pub motion_mode : Monitor → ℕ
motion_mode m = if m.side1.motion_detected || m.side2.motion_detected then 1 else 0

unfoldable pub set_motion_detected : Cam → Bool → Monitor → Monitor
set_motion_detected cam detected m =
    let m' = with_side cam (record (side cam m) { motion_detected = detected }) m in
    if m'.mode == mode_auto then record m' { mode_to_send = motion_mode m' } else m'

-- `getNewMode(currentMode)`; `none` waits.
unfoldable pub get_new_mode : ℕ → Monitor → Option ℕ
get_new_mode current m = if current == m.mode_to_send then none else some m.mode_to_send

unfoldable pub get_mode : Monitor → ℕ
get_mode m = m.mode

unfoldable pub get_sync_mode : Monitor → Bool
get_sync_mode m = m.synced
