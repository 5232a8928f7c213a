-- ===== src/ServerCommon/Delivery.antt =====
-- What `write_n` puts on the wire.
use edaf55_project.Base.{
  ℕ, zero, suc, ◌+◌, ◌-◌, ◌^◌, ◌≤◌, ◌<◌, ◌≡◌, refl, ◌∙◌, ap, sym, ◌⊎◌, inl, inr, List, [], ◌∷◌,
  ◌++◌, append-nil, append_assoc, take, length, length-take, take-take, some, ℤ, pos, negsuc, arith,
  ltb, lt→ltb, true,
}
use edaf55_project.Socket.{Socket, IsLawful}
use edaf55_project.ServerCommon.{write_n_loop, write_n, add_size}

abbrev pub sum : List ℕ → ℕ
sum [] = 0
sum (k ∷ ks) = k + sum ks

-- The bytes that go out when each call takes the first `k` bytes of the same buffer.
abbrev pub prefixes : List ℕ → List ℕ → List ℕ
prefixes [] buf = []
prefixes (k ∷ ks) buf = take k buf ++ prefixes ks buf

-- Calls of `send` one after the other, with `m` bytes left before the first one, and their results:
-- each call is offered the front of the buffer, as many bytes as are left.
pub data Sends (S : Socket) (buf : List ℕ) : ℕ → S.State → List ℕ → S.State → Type 0 where
  none_yet : {m : ℕ} {s : S.State} → Sends S buf m s [] s
  then_sends :
      {m k : ℕ} {ks : List ℕ} {s u t : S.State}
      → S.send s (take m buf) ≡ (pos k, u)
      → Sends S buf (m - k) u ks t
      → Sends S buf m s (k ∷ ks) t

-- How a call that has `m` of `n` bytes to write may end: with the error of `send` behind calls
-- whose results sum up to less than `m`; or with the count `n` behind calls whose results sum up to
-- `m`. What has gone out is what these calls took.
pub data Ended (S : Socket) (buf : List ℕ) (n m : ℕ) (s : S.State) (r : ℤ) (t : S.State)
    : Type 0 where
  failed :
      (ks : List ℕ) (u : S.State) {e : ℕ}
      → Sends S buf m s ks u
      → sum ks < m
      → S.send u (take (m - sum ks) buf) ≡ (negsuc e, t)
      → r ≡ negsuc e
      → S.wire t ≡ S.wire s ++ prefixes ks buf
      → Ended S buf n m s r t
  whole :
      (ks : List ℕ)
      → Sends S buf m s ks t
      → r ≡ pos n
      → sum ks ≡ m
      → S.wire t ≡ S.wire s ++ prefixes ks buf
      → Ended S buf n m s r t

pub send_cases :
    (S : Socket) (q : ℤ × S.State)
    → ((e : ℕ) × (t : S.State) × (q ≡ (negsuc e, t))) ⊎ ((k : ℕ) × (t : S.State) × (q ≡ (pos k, t)))
send_cases S (pos k, t) = inr (k, t, refl)
send_cases S (negsuc e, t) = inl (e, t, refl)

module _ (S : Socket) (L : IsLawful S) (buf : List ℕ) (n : ℕ) (fits : n ≤ length buf)
    (small : n < 2 ^ 31) where
  Ended-cons :
      (m k : ℕ) {s u t : S.State} {r : ℤ}
      → k ≤ m
      → S.send s (take m buf) ≡ (pos k, u)
      → Ended S buf n (m - k) u r t
      → Ended S buf n m s r t
  Ended-cons m k {s} {u} le q (failed ks v run less err e w) =
      let left : m - k - sum ks ≡ m - sum (k ∷ ks) = omega arith in
      failed (k ∷ ks) v (then_sends q run) (omega arith)
        (ap (λ i. S.send v (take i buf)) (sym left) ∙ err) e
        (rw (w, L.delivers s u _ k q, take-take k m buf le, append_assoc))
  Ended-cons m k {s} {u} le q (whole ks run e sum_eq w) =
      whole (k ∷ ks) (then_sends q run) e (omega arith)
        (rw (w, L.delivers s u _ k q, take-take k m buf le, append_assoc))

  -- One call that takes `k` of the `m` bytes that are left makes progress.
  send_taken :
      (m k : ℕ) {s t : S.State}
      → 0 < m
      → m ≤ n
      → S.send s (take m buf) ≡ (pos k, t)
      → (0 < k) × (k ≤ m)
  send_taken m k {s} {t} p le q =
      let offered : length (take m buf) ≡ m = omega (arith, length-take m buf) in
      let most = L.bounded s t _ k q in
      let progress = L.progress s t _ k q (omega arith) in (omega arith, omega arith)

  -- One round of the loop that ends well; the sum does not wrap.
  loop_taken :
      (fuel w m k : ℕ) (s t : S.State)
      → w + m ≡ n
      → 0 < m
      → k ≤ m
      → S.send s (take m buf) ≡ (pos k, t)
      → write_n_loop S (suc fuel) s buf n w ≡ write_n_loop S fuel t buf n (w + k)
  unfolding write_n_loop
  loop_taken fuel w m k s t e p le q =
      let left : n - w ≡ m = omega arith in
      let more : ltb w n ≡ true = lt→ltb w n (omega arith) in
      let exact : add_size w k ≡ w + k = omega arith in rw (more, left, q, exact)

  loop_failed :
      (fuel w m e : ℕ) (s t : S.State)
      → w + m ≡ n
      → 0 < m
      → S.send s (take m buf) ≡ (negsuc e, t)
      → write_n_loop S (suc fuel) s buf n w ≡ some (negsuc e, t)
  unfolding write_n_loop
  loop_failed fuel w m e s t e' p q =
      let left : n - w ≡ m = omega arith in
      let more : ltb w n ≡ true = lt→ltb w n (omega arith) in rw (more, left, q)

  loop_done :
      (fuel w : ℕ) (s : S.State) → w ≡ n → write_n_loop S (suc fuel) s buf n w ≡ some (pos n, s)
  unfolding write_n_loop
  loop_done fuel w s e = ground arith

  loop_total :
      (fuel : ℕ) (s : S.State) (w m : ℕ)
      → w + m ≡ n
      → m < fuel
      → (r : ℤ) × (t : S.State) × (write_n_loop S fuel s buf n w ≡ some (r, t))
        × Ended S buf n m s r t
  loop_total zero s w m e h = absurd (omega arith)
  loop_total (suc fuel) s w zero e h =
      (pos n, s, loop_done fuel w s (omega arith), whole [] none_yet refl refl (rw append-nil))
  loop_total (suc fuel) s w (suc m) e h = elim (send_cases S (S.send s (take (suc m) buf))) [
    | inl (x, t, q) ↦
        let all : suc m - 0 ≡ suc m = omega arith in
        (
          negsuc x,
          t,
          loop_failed fuel w (suc m) x s t e (omega arith) q,
          failed [] s none_yet (omega arith) (ap (λ i. S.send s (take i buf)) all ∙ q) refl
              (L.fails s t _ x q ∙ sym (append-nil (S.wire s))),
        )
    | inr (k, t, q) ↦
        let (progress, room) = send_taken (suc m) k (omega arith) (omega arith) q in
        let (r, u, runs, ended) =
          loop_total fuel t (w + k) (suc m - k) (omega arith) (omega arith) in
        (
          r,
          u,
          loop_taken fuel w (suc m) k s t e (omega arith) room q ∙ runs,
          Ended-cons (suc m) k room q ended,
        )
  ]

  -- On a lawful socket and for `n` below 2 ^ 31 and up to the buffer's length, `write_n` always
  -- returns: with the first error of `send`, behind calls whose results sum up to less than `n`; or
  -- with `n`, behind calls whose results sum up to `n`. Each call is offered the front of the
  -- buffer, as many bytes as are left, and what these calls took of it, and no more, has gone out.
  pub write_n_total :
      (s : S.State)
      → (r : ℤ) × (t : S.State) × (write_n S s buf n ≡ some (r, t)) × Ended S buf n n s r t
  unfolding write_n
  write_n_total s = loop_total (suc n) s 0 n (omega arith) (omega arith)

  -- If the first call takes all it is offered, exactly the first `n` bytes of the buffer go out.
  pub write_n_whole :
      (s t : S.State)
      → 0 < n
      → S.send s (take n buf) ≡ (pos n, t)
      → (write_n S s buf n ≡ some (pos n, t)) × (S.wire t ≡ S.wire s ++ take n buf)
  unfolding write_n
  write_n_whole s t p q = (
    loop_taken n 0 n n s t (omega arith) p (omega arith) q ∙ runs n p,
    L.delivers s t _ n q ∙ ap (λ d. S.wire s ++ d) (take-take n n buf (omega arith)),
  )
    where
      runs : (f : ℕ) → 0 < f → write_n_loop S f t buf n (0 + n) ≡ some (pos n, t)
      runs zero h = absurd (omega arith)
      runs (suc f) h = loop_done f (0 + n) t (omega arith)

  -- On a lawful socket and for `n` below 2 ^ 31 and up to the buffer's length: if the first call
  -- takes only `k` bytes, more than 0 and less than `n`, and the second one takes what it is
  -- offered, the first bytes of the buffer go out a second time in place of the rest, and the
  -- result is still `n`.
  pub write_n_short :
      (s t u : S.State) (k : ℕ)
      → 0 < k
      → k < n
      → S.send s (take n buf) ≡ (pos k, t)
      → S.send t (take (n - k) buf) ≡ (pos (n - k), u)
      → (write_n S s buf n ≡ some (pos n, u))
        × (S.wire u ≡ S.wire s ++ (take k buf ++ take (n - k) buf))
  unfolding write_n
  write_n_short s t u k p lt q q' = (
    loop_taken n 0 n k s t (omega arith) (omega arith) (omega arith) q ∙ runs n (omega arith),
    rw (
      L.delivers t u _ (n - k) q',
      L.delivers s t _ k q,
      take-take k n buf (omega arith),
      take-take (n - k) (n - k) buf (omega arith),
      append_assoc,
    ),
  )
    where
      runs : (f : ℕ) → 1 < f → write_n_loop S f t buf n (0 + k) ≡ some (pos n, u)
      runs zero h = absurd (omega arith)
      runs (suc zero) h = absurd (omega arith)
      runs (suc (suc f)) h =
          loop_taken (suc f) (0 + k) (n - k) (n - k) t u (omega arith) (omega arith) (omega arith)
            q'
          ∙ loop_done f (0 + k + (n - k)) u (omega arith)
