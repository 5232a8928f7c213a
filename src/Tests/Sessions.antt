-- ===== src/Tests/Sessions.antt =====
-- The mode on its way to the server, and the camera's blocks, on short runs.
use edaf55_project.Base.{
  ℕ, suc, ◌+◌, ◌<◌, ◌≡◌, refl, List, [], ◌∷◌, ◌⊎◌, some, false, pos, codes, arith,
}
use edaf55_project.CameraMonitor
use edaf55_project.ClientMonitor.{set_mode, get_new_mode}
use edaf55_project.ClientMonitor.Running.{sets_mode, step}
use edaf55_project.Server.Tasks.{begin}
use edaf55_project.ModeSender.{
  Chain, ChainReach, at_begin, after, calls, sends, reads, sets, goes_on, begin_chain, pack,
}
use edaf55_project.ModeSender.Agrees.{ChainReach-mode}
use edaf55_project.FakeCapture.{File, contents}
use edaf55_project.Memory.Blocks.{
  Event, allocated, freed, Allocator, Allocates, is_live, SameBlocks,
}
use edaf55_project.Camera.Blocks.{session_blocks}
use edaf55_project.Camera.Blocks.Balance.{session_blocks-SameBlocks}
use edaf55_project.Tests.Threads.{monitor}

-- The user sets the movie mode, and the server reads it.
told_run : (c : Chain) × ChainReach (begin_chain (begin monitor)) c
unfolding step set_mode get_new_mode CameraMonitor.set_mode pack
told_run = (
  _,
  after
      (after
        (after
          (after (after (after at_begin (calls (sets_mode 2) (omega arith) refl)) (sends 1 refl))
            (goes_on refl refl))
          (reads refl refl))
        (sets refl))
      (goes_on refl refl),
)

ChainReach-mode_example :
    (CameraMonitor.get_mode (told_run.0).sys.sh.mon ≡ pos (told_run.0).client.mode_to_send)
    ⊎ (((told_run.0).client.mode_to_send ≡ 0)
        × (CameraMonitor.get_mode (told_run.0).sys.sh.mon ≡ CameraMonitor.get_mode monitor))
unfolding told_run get_new_mode
ChainReach-mode_example = ChainReach-mode monitor 1 told_run.1 refl refl refl

told_mode : CameraMonitor.get_mode (told_run.0).sys.sh.mon ≡ CameraMonitor.movie_mode
unfolding told_run CameraMonitor.get_mode CameraMonitor.set_mode
told_mode = refl

-- Addresses behind all that have been used.
abbrev total : List Event → ℕ
total [] = 0
total (allocated p ∷ log) = p + total log
total (freed p ∷ log) = total log

abbrev counting : Allocator
counting log = suc (total log)

unused : (p : ℕ) (log : List Event) → total log < p → is_live p log ≡ false
unused p [] h = refl
unused p (allocated q ∷ log) h = ground (arith, unused p log (omega arith))
unused p (freed q ∷ log) h = ground (arith, unused p log (omega arith))

counting-Allocates : Allocates counting
counting-Allocates = record {
  room = λ log. ground arith;
  fresh = λ log. unused (counting log) log (omega arith);
}

abbrev films : List File
films = contents (codes "jpg") ∷ contents (codes "JPG") ∷ []

session_blocks-SameBlocks_example :
    (log : List Event) × (session_blocks counting films [] ≡ some log) × SameBlocks [] log
session_blocks-SameBlocks_example =
    session_blocks-SameBlocks counting counting-Allocates films [] (omega arith, (omega arith, tt))
