-- ===== src/BasicClient.antt =====
-- C/source/BasicClient.c: the first client, which prints what it receives, byte by byte.
use edaf55_project.Base.{ℕ, zero, suc, ◌≡◌, List, false, Option, some, none, ℤ, ◌==◌, if◌then◌else◌}
use edaf55_project.Os.{Os, Call, call, socket, connect}

-- `recv(clientSocket, buffer, 1, 0)`: the byte, or none where it gives 0 or -1.
pub record Peer : Type 1 where
  pub State : Type 0
  pub recv : State → Option ℕ × State

-- What stands before the loop: `clientSocket` and the calls. No result is looked at.
unfoldable pub start : Os → List Call → ℤ × List Call
unfolding call
start os log = let made = call os socket log in (made.0, (call os (connect made.0) made.1).1)

-- `buffer[0]` behind a `recv`.
abbrev pub byte_or : ℕ → Option ℕ → ℕ
byte_or old none = old
byte_or old (some b) = b

module _ (P : Peer) where
  -- So many rounds of the loop: `buffer[0]` and the connection behind them. `printf` with `%s`
  -- reads on behind the one byte of the array, unless that byte is 0, which is `none`.
  unfoldable pub print_bytes : ℕ → ℕ → P.State → Option (ℕ × P.State)
  print_bytes zero buffer s = some (buffer, s)
  print_bytes (suc rounds) buffer s =
      let got = P.recv s in
      let byte = byte_or buffer got.0 in
      let rest = print_bytes rounds byte got.1 in if byte == 0 then rest else none

  -- `main`: 100 rounds, from whatever the array holds at first.
  unfoldable pub main : ℕ → P.State → Option (ℕ × P.State)
  unfolding print_bytes
  main buffer s = print_bytes 100 buffer s

  -- The program reads outside its array as soon as a byte comes that is not 0.
  print_bytes-overread :
      (rounds buffer b : ℕ) (s t : P.State)
      → P.recv s ≡ (some b, t)
      → (b == 0) ≡ false
      → print_bytes (suc rounds) buffer s ≡ none
  unfolding print_bytes
  print_bytes-overread rounds buffer b s t q h = rw (q, h)
