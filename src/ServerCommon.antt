-- ===== src/ServerCommon.antt =====
-- C/source/production/server_common.c: writing whole buffers to a socket. Sizes are 32-bit, as on
-- the camera (the programs refuse to send where `sizeof(size_t)` is not 4).
pub mod Delivery
use edaf55_project.Base.{
  ℕ, zero, suc, ◌+◌, ◌-◌, ◌%◌, ◌^◌, List, [], ◌∷◌, take, Option, none, some, Bool, true, false, ℤ,
  pos, negsuc, pos_part, is_negative, ltb, ◌==◌, if◌then◌else◌,
}
use edaf55_project.Socket.{Socket}
use edaf55_project.Text.{strlen}

-- `size_t` addition, and the conversion of a `size_t` to `ssize_t`.
abbrev pub add_size : ℕ → ℕ → ℕ
add_size a b = (a + b) % 2 ^ 32

abbrev pub to_ssize : ℕ → ℤ
to_ssize a = if ltb a (2 ^ 31) then pos a else negsuc (2 ^ 32 - a - 1)

module _ (S : Socket) where
  -- The loop of `write_n`. The buffer pointer stays where it is, so each round offers the first
  -- `n - written` bytes of `buf`. The first argument is fuel; `none` means that it ran out.
  pub write_n_loop : ℕ → S.State → List ℕ → ℕ → ℕ → Option (ℤ × S.State)
  write_n_loop zero s buf n written = none
  write_n_loop (suc fuel) s buf n written =
      let (tmp, t) = S.send s (take (n - written) buf) in
      let next = write_n_loop fuel t buf n (add_size written (pos_part tmp)) in
      let round = if is_negative tmp then some (tmp, t) else next in
      if ltb written n then round else some (to_ssize written, s)

  -- `write_n(fd, buf, n)`. Each round but the last writes a byte at least, so `n + 1` rounds do.
  unfoldable pub write_n : S.State → List ℕ → ℕ → Option (ℤ × S.State)
  unfolding write_n_loop
  write_n s buf n = write_n_loop (suc n) s buf n 0

  -- `write_string(fd, buf)`
  unfoldable pub write_string : S.State → List ℕ → Option (ℤ × S.State)
  unfolding write_n
  write_string s buf = write_n s buf (strlen buf)

-- `set_socket_sigpipe_option(fd)`: without SO_NOSIGPIPE (Linux) there is no call; with it,
-- `setsockopt` gives 0, or an error whose `errno` is the result.
unfoldable pub set_socket_sigpipe_option : Bool → Option ℕ → ℕ
set_socket_sigpipe_option false call = 0
set_socket_sigpipe_option true none = 0
set_socket_sigpipe_option true (some errno) = errno
