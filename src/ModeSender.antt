-- ===== src/ModeSender.antt =====
-- edaf55_project_java/src/networking/ModeSender.java and ModePack.java: the thread of the client
-- that sends the mode, with the client's monitor before it and `update_mode_task` of
-- C/source/production/server.c behind it, while their connection lasts.
pub mod Bits
pub mod Agrees
use edaf55_project.Base.{
  ℕ, ◌≡◌, ◌≤◌, List, [], ◌∷◌, ◌++◌, Option, none, some, true, pos, ◌==◌, if◌then◌else◌,
}
use edaf55_project.CameraMonitor
use edaf55_project.ClientMonitor.{Monitor, Shot, Cam, get_new_mode, new_monitor}
use edaf55_project.ClientMonitor.Running.{Op, sets_mode, step}
use edaf55_project.Server.Tasks.{System, Step, mode_head, mode_reading, mode_setting}

-- `ModePack.pack(buffer, movieMode)`: the byte.
unfoldable pub pack : ℕ → ℕ
pack movie_mode = if movie_mode == 1 then 1 else 0

-- The client's monitor, `ModeSender.mode`, the bytes under way, and the server's threads.
pub record Chain : Type 0 where
  pub client : Monitor
  pub sender_mode : ℕ
  pub wire : List ℕ
  pub sys : System

-- The GUI sets no other modes than the three.
abbrev pub IsMode : Op → Type 0
IsMode (sets_mode mode) = mode ≤ 2
IsMode _ = Unit

-- One step: a call of the client's monitor; a round of the sender, unless `getNewMode` waits; a step
-- of the server's threads that leaves `update_mode_task` where it is; or one of that thread, which
-- reads a byte that is there, sets it, or goes on.
pub data ChainStep (c : Chain) : Chain → Type 0 where
  calls :
      (op : Op) {m : Monitor} {out : List (Cam × Shot)}
      → IsMode op
      → step op c.client ≡ some (m, out)
      → ChainStep c (record c { client = m })
  sends :
      (mode : ℕ)
      → get_new_mode c.sender_mode c.client ≡ some mode
      → ChainStep c (record c { sender_mode = mode; wire = c.wire ++ (pack mode ∷ []) })
  others :
      {s : System} → Step c.sys s → s.mode_pc ≡ c.sys.mode_pc → ChainStep c (record c { sys = s })
  reads :
      {old byte : ℕ} {rest : List ℕ}
      → c.sys.mode_pc ≡ mode_reading (pos old)
      → c.wire ≡ byte ∷ rest
      → ChainStep c
          (record c { wire = rest; sys = record (c.sys) { mode_pc = mode_setting (pos byte) } })
  sets :
      {byte : ℕ}
      → c.sys.mode_pc ≡ mode_setting (pos byte)
      → ChainStep c (record c {
        sys = record (c.sys) {
          sh = record (c.sys.sh) { mon = CameraMonitor.set_mode (pos byte) c.sys.sh.mon };
          mode_pc = mode_head (pos byte);
        };
      })
  goes_on :
      {byte : ℕ}
      → c.sys.mode_pc ≡ mode_head (pos byte)
      → c.sys.sh.connected ≡ true
      → ChainStep c (record c { sys = record (c.sys) { mode_pc = mode_reading (pos byte) } })

pub data ChainReach (c : Chain) : Chain → Type 0 where
  at_begin : ChainReach c c
  after : {d e : Chain} → ChainReach c d → ChainStep d e → ChainReach c e

-- The client's monitor is new, the sender has sent nothing, and the server's threads have begun.
abbrev pub begin_chain : System → Chain
begin_chain s = record { client = new_monitor; sender_mode = 0; wire = []; sys = s }
