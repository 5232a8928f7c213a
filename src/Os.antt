-- ===== src/Os.antt =====
-- The calls of the operating system that the programs' start and their accept loops make. Their
-- results are not the programs' own, so they are a parameter: what each call gives may depend on
-- all calls before. The log of the calls stands for what the system knows.
use edaf55_project.Base.{
  ℕ, suc, ◌-◌, ◌%◌, ◌^◌, List, [], ◌∷◌, Bool, true, false, ◌||◌, ℤ, pos, negsuc, is_nonzero,
  is_negative, not, if◌then◌else◌, ◌≡◌, ◌≢◌,
}

-- The functions that run as threads.
pub data Thread : Type 0 where
  bg_task : Thread
  main_task : Thread
  ui_task : Thread
  motion_task : Thread
  take_picture_task : Thread
  send_picture_task : Thread
  update_mode_task : Thread

-- A call, with its arguments as far as they matter here. `bind` names the port, `listen` the
-- backlog. `open_stream` is the allocation in `camera_open`.
pub data Call : Type 0 where
  socket : Call
  setsockopt : ℤ → Call
  bind : ℤ → ℕ → Call
  listen : ℤ → ℕ → Call
  accept : ℤ → Call
  poll : ℤ → Call
  connect : ℤ → Call
  gethostbyname : Call
  close : ℤ → Call
  malloc : Call
  open_stream : Call
  camera_close : Call
  pthread_create : Thread → Call
  pthread_join : Thread → Call
  pthread_detach : Thread → Call

-- `result log c` is what the call `c` gives behind the calls `log`, newest first (a pointer is 0
-- for NULL), and `errno log` the value of `errno` there.
pub record Os : Type 0 where
  pub result : List Call → Call → ℤ
  pub errno : List Call → ℤ

-- A call: its result and the log afterwards.
unfoldable pub call : Os → Call → List Call → ℤ × List Call
call os c log = (os.result log c, c ∷ log)

-- `htons(port)` keeps the low 16 bits of an `int`.
abbrev pub port_of : ℤ → ℕ
port_of (pos n) = n % 2 ^ 16
port_of (negsuc n) = 2 ^ 16 - 1 - n % 2 ^ 16

-- Calls joined by `||`: up to the first one that does not give 0, and whether there is one.
unfoldable pub any_fails : Os → List Call → List Call → Bool × List Call
unfolding call
any_fails os [] log = (false, log)
any_fails os (c ∷ cs) log =
    let p = call os c log in
    let rest = any_fails os cs p.1 in if is_nonzero p.0 then (true, p.1) else rest

-- The call `c` has been made and gave `r`.
pub data Gave (os : Os) (c : Call) (r : ℤ) : List Call → Type 0 where
  here : {log : List Call} → os.result log c ≡ r → Gave os c r (c ∷ log)
  there : {x : Call} {log : List Call} → Gave os c r log → Gave os c r (x ∷ log)

-- Some call of the log passes the test.
unfoldable pub made : (Call → Bool) → List Call → Bool
made test [] = false
made test (c ∷ log) = test c || made test log

-- The results that stand for a failure which POSIX documents to set `errno`. The thread functions
-- return the number instead.
unfoldable pub fails : Call → ℤ → Bool
fails socket r = is_negative r
fails (setsockopt fd) r = is_nonzero r
fails (bind fd port) r = is_nonzero r
fails (listen fd backlog) r = is_nonzero r
fails (accept fd) r = is_negative r
fails (poll fd) r = is_negative r
fails (connect fd) r = is_negative r
fails (close fd) r = is_nonzero r
fails malloc r = not (is_nonzero r)
fails open_stream r = not (is_nonzero r)
fails _ r = false

-- How many calls of the log pass the test.
abbrev pub count : (Call → Bool) → List Call → ℕ
count test [] = 0
count test (c ∷ log) = if test c then suc (count test log) else count test log

-- What POSIX documents of `errno`: a failed call sets it to a number that is not 0, and no call
-- sets it back to 0.
pub record SetsErrno (os : Os) : Type 0 where
  pub on_failure :
      (log : List Call) (c : Call) → fails c (os.result log c) ≡ true → os.errno (c ∷ log) ≢ pos 0
  pub kept : (log : List Call) (c : Call) → os.errno log ≢ pos 0 → os.errno (c ∷ log) ≢ pos 0
