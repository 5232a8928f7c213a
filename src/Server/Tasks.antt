-- ===== src/Server/Tasks.antt =====
-- C/source/production/server.c: the three threads that serve a client, `take_picture_task`,
-- `send_picture_task` and `update_mode_task`, interleaved step by step. A step is what a thread does
-- between two accesses to what the threads share; each function of the monitor is one access, since
-- it holds `camera_mutex`. `global_mutex` and `global_cond` are modelled as POSIX documents them: a
-- wait releases the mutex and parks the thread at once, a broadcast unparks every thread, and a
-- thread may wake with no broadcast.
pub mod Invariant
pub mod Safety
pub mod Progress
pub mod Shutdown
pub mod Starving
use edaf55_project.Base.{
  ℕ, ◌≡◌, ◌≢◌, List, [], ◌∷◌, ◌++◌, Bool, true, false, ℤ, pos, ◌==◌, if◌then◌else◌,
}
use edaf55_project.CameraMonitor.{
  CameraMonitor, take_pic_state, send_pic_state, get_pic_take_send, flip_pic_take_send, set_mode,
}

pub data Role : Type 0 where
  taker sender : Role

-- Who holds `global_mutex`: one of the two picture threads, `bg_task` or another thread, nobody.
pub data Owner : Type 0 where
  nobody other : Owner
  thread : Role → Owner

-- The packet and its size.
abbrev pub Picture : Type 0
Picture = List ℕ × ℤ

-- What the threads share. `taker_parked` and `sender_parked` say who is in the queue of
-- `global_cond`. The two lists are a record of the past for the theorems: what the monitor held at
-- the end of each `try_get_frame`, and what each `try_send_frame` has found there.
pub record Shared : Type 0 where
  pub mon : CameraMonitor
  pub owner : Owner
  pub connected : Bool
  pub taker_parked : Bool
  pub sender_parked : Bool
  pub pics : List Picture
  pub out : List Picture

-- Where a picture thread stands.
pub data Pc : Type 0 where
  head : Pc  -- at `while(client->isConnected)`
  locking : Pc  -- before `pthread_mutex_lock`
  testing : Pc  -- at `while(get_pic_take_send() != …)`
  waiting : Pc  -- in `pthread_cond_wait`
  working : Pc  -- before the frame is taken or sent
  flipping : Pc  -- before `flip_pic_take_send`
  unlocking : Pc  -- before `pthread_mutex_unlock`
  signalling : Pc  -- before `pthread_cond_broadcast`
  closing : Pc  -- before `close`
  finished : Pc

-- Where `update_mode_task` stands, with the byte that `buf` holds.
pub data ModePc : Type 0 where
  mode_head mode_reading mode_setting : ℤ → ModePc
  mode_closing mode_finished mode_failed : ModePc

-- The state that a thread's inner loop waits for.
abbrev pub turn : Role → ℕ
turn taker = take_pic_state
turn sender = send_pic_state

abbrev pub parked : Role → Shared → Bool
parked taker sh = sh.taker_parked
parked sender sh = sh.sender_parked

abbrev pub set_parked : Role → Bool → Shared → Shared
set_parked taker b sh = record sh { taker_parked = b }
set_parked sender b sh = record sh { sender_parked = b }

abbrev pub current : CameraMonitor → Picture
current m = (m.pic_packet, m.packet_sz)

-- The work of a thread. `try_get_frame` leaves some packet and size in the monitor, the old ones if
-- it fails; `try_send_frame` sends what the monitor holds.
abbrev pub work : Role → Picture → Shared → Shared
work taker p sh = record sh {
  mon = record (sh.mon) { pic_packet = p.0; packet_sz = p.1 };
  pics = sh.pics ++ (p ∷ []);
}
work sender p sh = record sh { out = sh.out ++ (current sh.mon ∷ []) }

-- One step of a picture thread.
pub data Move (r : Role) (sh : Shared) : Pc → Shared → Pc → Type 0 where
  enter : sh.connected ≡ true → Move r sh head sh locking
  leave : sh.connected ≡ false → Move r sh head sh closing
  lock : sh.owner ≡ nobody → Move r sh locking (record sh { owner = thread r }) testing
  go : get_pic_take_send sh.mon ≡ turn r → Move r sh testing sh working
  wait :
      get_pic_take_send sh.mon ≢ turn r
      → Move r sh testing (set_parked r true (record sh { owner = nobody })) waiting
  wake : Move r sh waiting (set_parked r false sh) waiting
  relock :
      parked r sh ≡ false
      → sh.owner ≡ nobody
      → Move r sh waiting (record sh { owner = thread r }) testing
  handle : (p : Picture) → Move r sh working (work r p sh) flipping
  flip : Move r sh flipping (record sh { mon = flip_pic_take_send sh.mon }) unlocking
  unlock : Move r sh unlocking (record sh { owner = nobody }) signalling
  broadcast : Move r sh signalling (record sh { taker_parked = false; sender_parked = false }) head
  close : Move r sh closing sh finished

-- One step of `update_mode_task`. A read of 0 bytes is the client's end of the connection; the old
-- byte is then set as the mode once more.
pub data ModeMove (sh : Shared) : ModePc → Shared → ModePc → Type 0 where
  mode_enter : {b : ℤ} → sh.connected ≡ true → ModeMove sh (mode_head b) sh (mode_reading b)
  mode_leave : {b : ℤ} → sh.connected ≡ false → ModeMove sh (mode_head b) sh mode_closing
  received : {b : ℤ} (c : ℤ) → ModeMove sh (mode_reading b) sh (mode_setting c)
  disconnected :
      {b : ℤ} → ModeMove sh (mode_reading b) (record sh { connected = false }) (mode_setting b)
  read_failed : {b : ℤ} → ModeMove sh (mode_reading b) sh mode_failed
  set : {b : ℤ} → ModeMove sh (mode_setting b) (record sh { mon = set_mode b sh.mon }) (mode_head b)
  mode_close : ModeMove sh mode_closing sh mode_finished

-- One step of a thread that does not serve the client: it takes and releases the mutex, and it may
-- broadcast (`bg_task`, `server_quit`, `signal_to_bg_task`).
pub data OtherMove (sh : Shared) : Shared → Type 0 where
  other_lock : sh.owner ≡ nobody → OtherMove sh (record sh { owner = other })
  other_unlock : sh.owner ≡ other → OtherMove sh (record sh { owner = nobody })
  other_broadcast : OtherMove sh (record sh { taker_parked = false; sender_parked = false })

pub record System : Type 0 where
  pub sh : Shared
  pub taker_pc : Pc
  pub sender_pc : Pc
  pub mode_pc : ModePc

pub data Step (s : System) : System → Type 0 where
  by_taker :
      {sh : Shared} {p : Pc}
      → Move taker s.sh s.taker_pc sh p
      → Step s (record s { sh = sh; taker_pc = p })
  by_sender :
      {sh : Shared} {p : Pc}
      → Move sender s.sh s.sender_pc sh p
      → Step s (record s { sh = sh; sender_pc = p })
  by_mode :
      {sh : Shared} {p : ModePc}
      → ModeMove s.sh s.mode_pc sh p
      → Step s (record s { sh = sh; mode_pc = p })
  by_other : {sh : Shared} → OtherMove s.sh sh → Step s (record s { sh = sh })

-- A picture that the client before has left in the monitor: `init` runs once for all clients.
abbrev pub left_over : CameraMonitor → List Picture
left_over m = if m.pic_take_send == 1 then current m ∷ [] else []

-- The threads of `try_accept` just created, over any monitor.
abbrev pub begin : CameraMonitor → System
begin m = record {
  sh = record {
    mon = m;
    owner = nobody;
    connected = true;
    taker_parked = false;
    sender_parked = false;
    pics = left_over m;
    out = [];
  };
  taker_pc = head;
  sender_pc = head;
  mode_pc = mode_head (pos 0);
}

-- The states that are reached from `s`.
pub data Reach (s : System) : System → Type 0 where
  here : Reach s s
  later : {t u : System} → Reach s t → Step t u → Reach s u
