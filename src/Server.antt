-- ===== src/Server.antt =====
-- C/source/production/server.c: the picture server. Its state; the functions on it are in the
-- modules below.
pub mod Frames
pub mod Tasks
pub mod Stream
pub mod Lifecycle
pub mod BgTask
use edaf55_project.Base.{ℕ, Bool, List, ℤ}

-- `struct client`; the frame pointer is not used.
pub record Client : Type 0 where
  pub is_connected : Bool
  pub send_buff : List ℕ

-- `struct global_state`, less the thread handles. `pfd` is the descriptor that the `pollfd` names,
-- and `cam` says whether the pointer to the camera is set.
pub record GlobalState : Type 0 where
  pub listenfd : ℤ
  pub modefd : ℤ
  pub running : Bool
  pub quit : Bool
  pub pfd : ℤ
  pub motionfd : ℤ
  pub cam : Bool
