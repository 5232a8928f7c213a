-- ===== src/DisplayMonitor/Delays.antt =====
-- DisplayMonitor.java: the time for which a picture is held back, against the time that is due.
use edaf55_project.Base.{
  ℕ, ◌+◌, ◌-◌, ◌^◌, ◌≤◌, ◌<◌, ◌≡◌, ◌∙◌, refl, sym, none, true, not, ltb, ◌==◌, if◌then◌else◌, arith,
  ◌↔◌,
}
use edaf55_project.ClientMonitor.{Cam, sub_long, add_long}
use edaf55_project.DisplayMonitor.{
  Display, Clock, Waiting, no_wait, waits, for_ever, wait_of, sync_delay, shown, update_picture,
}

-- What is done with a picture that comes at `now` and is due at `due`.
abbrev pub held_back : ℕ → ℕ → Waiting
held_back now due =
    if ltb now due then no_wait else if now == due then for_ever else waits (now - due)

wait_of-held_back :
    (now due : ℕ) → now < 2 ^ 63 → due < 2 ^ 63 → wait_of (sub_long now due) ≡ held_back now due
unfolding wait_of
wait_of-held_back now due hn hd = ground arith

-- In milliseconds since 1970 all times stay far below this.
abbrev pub IsTime : ℕ → Type 0
IsTime t = t < 2 ^ 62

due_time :
    (showed stamp last : ℕ)
    → IsTime showed
    → IsTime stamp
    → IsTime last
    → last ≤ showed + stamp
    → add_long showed (sub_long stamp last) ≡ showed + stamp - last
due_time showed stamp last hs ht hl h = omega arith

sync_delay-held_back :
    (now stamp : ℕ) (m : Display)
    → m.is_synced ≡ true
    → 0 < m.showed_time
    → IsTime m.showed_time
    → IsTime m.last_time_stamp
    → IsTime stamp
    → IsTime now
    → m.last_time_stamp ≤ m.showed_time + stamp
    → (sync_delay now stamp m).0 ≡ held_back now (m.showed_time + stamp - m.last_time_stamp)
unfolding sync_delay
sync_delay-held_back now stamp m synced some_time hs hl ht hn h =
    let started : not (m.showed_time == 0) ≡ true = ground arith in
    rw (synced, started, due_time m.showed_time stamp m.last_time_stamp hs ht hl h)
      (wait_of-held_back now (m.showed_time + stamp - m.last_time_stamp) (omega arith)
        (omega arith))

shown-none :
    (cam : Cam) (clock : Clock) (stamp : ℕ) (w : Waiting) (m : Display)
    → (shown cam clock stamp (w, m) ≡ none) ↔ (w ≡ for_ever)
unfolding shown
shown-none cam clock stamp no_wait m = ((λ h. absurd (cc h)), (λ h. absurd (cc h)))
shown-none cam clock stamp (waits k) m = ((λ h. absurd (cc h)), (λ h. absurd (cc h)))
shown-none cam clock stamp for_ever m = ((λ h. refl), (λ h. refl))

held_back-for_ever : (now due : ℕ) → (held_back now due ≡ for_ever) ↔ (now ≡ due)
held_back-for_ever now due = ground arith

-- While the two cameras are shown synchronously, a picture is due when as much time has passed
-- since the one before was shown as lies between their time stamps. One that comes too early is not
-- held back at all; one that comes too late is held back again, for as long as it is late; and the
-- call for one that comes in time never returns, and no other one does not. All times are below
-- 2 ^ 62, and one picture has been shown.
pub update_picture-held_back :
    (cam : Cam) (clock : Clock) (stamp : ℕ) (m : Display)
    → m.is_synced ≡ true
    → 0 < m.showed_time
    → IsTime m.showed_time
    → IsTime m.last_time_stamp
    → IsTime stamp
    → IsTime clock.at_wait
    → m.last_time_stamp ≤ m.showed_time + stamp
    → (let due = m.showed_time + stamp - m.last_time_stamp in
        ((sync_delay clock.at_wait stamp m).0 ≡ held_back clock.at_wait due)
        × ((update_picture cam clock stamp m ≡ none) ↔ (clock.at_wait ≡ due)))
unfolding update_picture
update_picture-held_back cam clock stamp m synced some_time hs hl ht hn h =
    let now = clock.at_wait in
    let due = m.showed_time + stamp - m.last_time_stamp in
    let w = sync_delay now stamp m in
    let held = sync_delay-held_back now stamp m synced some_time hs hl ht hn h in
    let (to, back) = shown-none cam clock stamp w.0 w.1 in
    let (to', back') = held_back-for_ever now due in
    (held, ((λ e. to' (sym held ∙ to e)), (λ e. back (held ∙ back' e))))
