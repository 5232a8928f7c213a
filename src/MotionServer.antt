-- ===== src/MotionServer.antt =====
-- C/source/production/motion_server.c: the server that keeps the time of the last motion event.
-- Its state; the functions on it are in the modules below.
pub mod Request
pub mod Respond
pub mod Notify
pub mod BgTask
pub mod Lifecycle
use edaf55_project.Base.{ℕ, Bool, ℤ}

-- `struct global_state`, less the thread handles. `pfd` and `mfd` are the descriptors that the two
-- `pollfd` name.
pub record GlobalState : Type 0 where
  pub listenfd : ℤ
  pub running : Bool
  pub quit : Bool
  pub pfd : ℤ
  pub motionfd : ℤ
  pub motioncfd : ℤ
  pub mfd : ℤ
  pub t_remote : ℤ
  pub t_local : ℤ
