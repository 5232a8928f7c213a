-- ===== src/BasicServer.antt =====
-- C/source/BasicServer.c: `send_all`, the earlier prototype's loop over `send`. Here the pointer
-- moves on with each round. Main has its `main`.
pub mod Main
use edaf55_project.Base.{
  ℕ, zero, suc, ◌+◌, ◌-◌, ◌≤◌, ◌<◌, ◌≡◌, refl, ◌∙◌, inl, inr, List, ◌++◌, append-nil, append_assoc,
  take, drop, length, length-take, length-drop, take-take, take-drop, Option, none, some, ℤ, pos,
  negsuc, pos_part, is_nonpositive, arith, ltb, lt→ltb, if◌then◌else◌,
}
use edaf55_project.Socket.{Socket, IsLawful}
use edaf55_project.ServerCommon.Delivery.{send_cases}

module _ (S : Socket) where
  -- `send_all(socket, buffer, length, flags)`: `p` is what `buffer` has from the pointer on. The
  -- first argument is fuel; `none` means that it ran out.
  send_all_loop : ℕ → S.State → List ℕ → ℕ → Option (ℤ × S.State)
  send_all_loop zero s p len = none
  send_all_loop (suc fuel) s p len =
      let (n, t) = S.send s (take len p) in
      let next = send_all_loop fuel t (drop (pos_part n) p) (len - pos_part n) in
      let round = if is_nonpositive n then some (negsuc 0, t) else next in
      if ltb 0 len then round else some (pos 0, s)

  unfoldable pub send_all : S.State → List ℕ → ℕ → Option (ℤ × S.State)
  unfolding send_all_loop
  send_all s buffer len = send_all_loop (suc len) s buffer len

module _ (S : Socket) (L : IsLawful S) where
  -- One round that sends `k` bytes moves the pointer and the count by `k`.
  loop_taken :
      (fuel len k : ℕ) (p : List ℕ) (s t : S.State)
      → 0 < len
      → 0 < k
      → S.send s (take len p) ≡ (pos k, t)
      → send_all_loop S (suc fuel) s p len ≡ send_all_loop S fuel t (drop k p) (len - k)
  unfolding send_all_loop
  loop_taken fuel len zero p s t h hk q = absurd (omega arith)
  loop_taken fuel len (suc k) p s t h hk q = rw (lt→ltb 0 len h, q)

  loop_failed :
      (fuel len e : ℕ) (p : List ℕ) (s t : S.State)
      → 0 < len
      → S.send s (take len p) ≡ (negsuc e, t)
      → send_all_loop S (suc fuel) s p len ≡ some (negsuc 0, t)
  unfolding send_all_loop
  loop_failed fuel len e p s t h q = rw (lt→ltb 0 len h, q)

  -- How a call for `len` bytes from `p` on may end: with -1 behind some front part of them, or with
  -- 0 and all of them on the wire.
  pub data Ended (p : List ℕ) (len : ℕ) (s : S.State) (r : ℤ) (t : S.State) : Type 0 where
    failed : (m : ℕ) → r ≡ negsuc 0 → m < len → S.wire t ≡ S.wire s ++ take m p → Ended p len s r t
    whole : r ≡ pos 0 → S.wire t ≡ S.wire s ++ take len p → Ended p len s r t

  Ended-drop :
      (p : List ℕ) (len k : ℕ) {s u t : S.State} {r : ℤ}
      → 0 < k
      → k ≤ len
      → S.wire u ≡ S.wire s ++ take k (take len p)
      → Ended (drop k p) (len - k) u r t
      → Ended p len s r t
  Ended-drop p len k hk le w (failed m e lt w') =
      failed (k + m) e (omega arith)
        (rw (w', w, take-take k len p le, append_assoc, take-drop k m p))
  Ended-drop p len k hk le w (whole e w') =
      let sum_eq : k + (len - k) ≡ len = omega arith in
      whole e (rw (w', w, take-take k len p le, append_assoc, take-drop k (len - k) p, sum_eq))

  loop_total :
      (fuel : ℕ) (s : S.State) (p : List ℕ) (len : ℕ)
      → len ≤ length p
      → len < fuel
      → (r : ℤ) × (t : S.State) × (send_all_loop S fuel s p len ≡ some (r, t)) × Ended p len s r t
  loop_total zero s p len fits h = absurd (omega arith)
  loop_total (suc fuel) s p zero fits h =
      (pos 0, s, unfold send_all_loop in refl, whole refl (rw append-nil))
  loop_total (suc fuel) s p (suc len) fits h = elim (send_cases S (S.send s (take (suc len) p))) [
    | inl (e, t, q) ↦ (
      negsuc 0,
      t,
      loop_failed fuel (suc len) e p s t (omega arith) q,
      failed 0 refl (omega arith) (rw append-nil (L.fails s t _ e q)),
    )
    | inr (k, t, q) ↦
        let offered : length (take (suc len) p) ≡ suc len =
          omega (arith, length-take (suc len) p) in
        let most = L.bounded s t _ k q in
        let progress = L.progress s t _ k q (omega arith) in
        let (r, u, runs, ended) =
          loop_total fuel t (drop k p) (suc len - k) (omega (arith, length-drop k p))
            (omega arith) in
        (
          r,
          u,
          loop_taken fuel (suc len) k p s t (omega arith) progress q ∙ runs,
          Ended-drop p (suc len) k progress (omega arith) (L.delivers s t _ k q) ended,
        )
  ]

  -- On a lawful socket `send_all` of at most the buffer's length always returns: with 0 when
  -- exactly the first `len` bytes of the buffer have gone out, however the calls of `send` cut
  -- them up, or with -1 behind a shorter front part of them.
  pub send_all_total :
      (s : S.State) (buffer : List ℕ) (len : ℕ)
      → len ≤ length buffer
      → (r : ℤ) × (t : S.State) × (send_all S s buffer len ≡ some (r, t)) × Ended buffer len s r t
  unfolding send_all
  send_all_total s buffer len fits = loop_total (suc len) s buffer len fits (omega arith)
