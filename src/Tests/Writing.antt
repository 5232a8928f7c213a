-- ===== src/Tests/Writing.antt =====
-- `write_n` and `send_all` on a pipe that takes the bytes in parts.
use edaf55_project.Base.{
  ℕ, ◌-◌, ◌≡◌, refl, List, [], ◌∷◌, ◌++◌, take, some, none, ℤ, pos, negsuc, arith, codes,
}
use edaf55_project.Socket.Pipe.{Pipe, pipe, pipe-IsLawful}
use edaf55_project.ServerCommon.{write_n}
use edaf55_project.ServerCommon.Delivery.{Ended, write_n_total, write_n_short}
use edaf55_project.BasicServer.{send_all}

-- A pipe whose first call takes two bytes.
abbrev slow : Pipe
slow = record { limits = some 1 ∷ []; out = [] }

abbrev broken : Pipe
broken = record { limits = some 1 ∷ none ∷ []; out = [] }

abbrev abcde : List ℕ
abcde = codes "abcde"

-- The first two bytes go out twice, and the last two never.
write_n-slow : write_n pipe slow abcde 5 ≡ some (pos 5, record { limits = []; out = codes "ababc" })
unfolding write_n
write_n-slow = refl

write_n-broken :
    write_n pipe broken abcde 5 ≡ some (negsuc 0, record { limits = []; out = codes "ab" })
unfolding write_n
write_n-broken = refl

send_all-slow : send_all pipe slow abcde 5 ≡ some (pos 0, record { limits = []; out = abcde })
unfolding send_all
send_all-slow = refl

write_n_total_example :
    (r : ℤ) × (t : Pipe) × (write_n pipe slow abcde 5 ≡ some (r, t)) × Ended pipe abcde 5 5 slow r t
write_n_total_example = write_n_total pipe pipe-IsLawful abcde 5 (omega arith) (omega arith) slow

write_n_short_example :
    (write_n pipe slow abcde 5 ≡ some (pos 5, record { limits = []; out = codes "ababc" }))
    × (codes "ababc" ≡ [] ++ (take 2 abcde ++ take (5 - 2) abcde))
write_n_short_example =
    write_n_short pipe pipe-IsLawful abcde 5 (omega arith) (omega arith) slow
      (record { limits = []; out = codes "ab" }) (record { limits = []; out = codes "ababc" }) 2
      (omega arith) (omega arith) refl refl
