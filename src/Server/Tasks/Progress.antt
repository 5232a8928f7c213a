-- ===== src/Server/Tasks/Progress.antt =====
-- While the client is connected the two picture threads never wait for each other for good.
use edaf55_project.Base.{◌≤◌, ◌≡◌, refl, ◌⊎◌, inl, inr, ◌≢◌, Bool, true, false, arith, Bool-cases}
use native.Mathlib.Decide.{ℕ_discrete}
use edaf55_project.CameraMonitor.{CameraMonitor, get_pic_take_send}
use edaf55_project.Server.Tasks.{
  Role, taker, sender, Owner, nobody, other, thread, Shared, Pc, head, locking, testing, waiting,
  working, flipping, unlocking, signalling, closing, finished, Move, enter, leave, lock, go, wait,
  relock, handle, flip, unlock, broadcast, close, current, System, Reach, begin, turn,
}
use edaf55_project.Server.Tasks.Invariant.{Inv, begin-Holds, Reach-Holds}

-- The thread has a step that takes it to another place. A wake-up without a broadcast is none.
abbrev pub Advances : Role → Shared → Pc → Type 0
Advances r sh p = (sh' : Shared) × (p' : Pc) × Move r sh p sh' p' × (p ≢ p')

-- Away from the mutex and the condition variable a thread always has such a step.
abbrev free_to_run : Pc → Bool
free_to_run locking = false
free_to_run waiting = false
free_to_run finished = false
free_to_run _ = true

runs : (r : Role) (sh : Shared) (p : Pc) → free_to_run p ≡ true → Advances r sh p
runs r sh head h = elim (Bool-cases sh.connected) [
  | inl on ↦ (sh, locking, enter on, λ e. cc)
  | inr off ↦ (sh, closing, leave off, λ e. cc)
]
runs r sh locking h = cc
runs r sh testing h = elim (ℕ_discrete (get_pic_take_send sh.mon) (turn r)) [
  | yes mine ↦ (sh, working, go mine, λ e. cc)
  | no other_turn ↦ (_, waiting, wait other_turn, λ e. cc)
]
runs r sh waiting h = cc
runs r sh working h = (_, flipping, handle (current sh.mon), λ e. cc)
runs r sh flipping h = (_, unlocking, flip, λ e. cc)
runs r sh unlocking h = (_, signalling, unlock, λ e. cc)
runs r sh signalling h = (_, head, broadcast, λ e. cc)
runs r sh closing h = (sh, finished, close, λ e. cc)
runs r sh finished h = cc

-- Both threads wait, and nobody holds the mutex: one of them has been woken.
both_waiting :
    (sh : Shared)
    → Inv sh waiting waiting
    → sh.owner ≡ nobody
    → Advances taker sh waiting ⊎ Advances sender sh waiting
both_waiting sh v e = elim (Bool-cases sh.taker_parked) [
  | inr up ↦ inl (_, testing, relock up e, λ q. cc)
  | inl down ↦ elim (Bool-cases sh.sender_parked) [
    | inr up ↦ inr (_, testing, relock up e, λ q. cc)
    | inl down' ↦ absurd (ground arith)
  ]
]

resolve :
    (sh : Shared) (tp sp : Pc)
    → Inv sh tp sp
    → sh.connected ≡ true
    → sh.owner ≡ nobody
    → Advances taker sh tp ⊎ Advances sender sh sp
resolve sh locking sp v on e = inl (_, testing, lock e, λ q. cc)
resolve sh finished sp v on e = absurd (ground arith)
resolve sh waiting locking v on e = inr (_, testing, lock e, λ q. cc)
resolve sh waiting finished v on e = absurd (ground arith)
resolve sh waiting waiting v on e = both_waiting sh v e
resolve sh waiting head v on e = inr (runs sender sh head refl)
resolve sh waiting testing v on e = inr (runs sender sh testing refl)
resolve sh waiting working v on e = inr (runs sender sh working refl)
resolve sh waiting flipping v on e = inr (runs sender sh flipping refl)
resolve sh waiting unlocking v on e = inr (runs sender sh unlocking refl)
resolve sh waiting signalling v on e = inr (runs sender sh signalling refl)
resolve sh waiting closing v on e = inr (runs sender sh closing refl)
resolve sh head sp v on e = inl (runs taker sh head refl)
resolve sh testing sp v on e = inl (runs taker sh testing refl)
resolve sh working sp v on e = inl (runs taker sh working refl)
resolve sh flipping sp v on e = inl (runs taker sh flipping refl)
resolve sh unlocking sp v on e = inl (runs taker sh unlocking refl)
resolve sh signalling sp v on e = inl (runs taker sh signalling refl)
resolve sh closing sp v on e = inl (runs taker sh closing refl)

owned :
    (sh : Shared) (tp sp : Pc) (o : Owner)
    → sh.owner ≡ o
    → Inv sh tp sp
    → sh.connected ≡ true
    → (sh.owner ≡ other) ⊎ (Advances taker sh tp ⊎ Advances sender sh sp)
owned sh tp sp nobody e v on = inr (resolve sh tp sp v on e)
owned sh tp sp other e v on = inl e
owned sh tp sp (thread taker) e v on = inr (inl (runs taker sh tp (ground arith)))
owned sh tp sp (thread sender) e v on = inr (inr (runs sender sh sp (ground arith)))

-- No deadlock while the client is connected: unless another thread holds the mutex, one of the two
-- picture threads can go on.
pub no_deadlock :
    {m : CameraMonitor} {s : System}
    → m.pic_take_send ≤ 1
    → Reach (begin m) s
    → s.sh.connected ≡ true
    → (s.sh.owner ≡ other) ⊎ (Advances taker s.sh s.taker_pc ⊎ Advances sender s.sh s.sender_pc)
no_deadlock {m} {s} h r on =
    owned s.sh s.taker_pc s.sender_pc s.sh.owner refl (Reach-Holds (begin-Holds m h) r) on
