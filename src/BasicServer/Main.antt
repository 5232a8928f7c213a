-- ===== src/BasicServer/Main.antt =====
-- C/source/BasicServer.c: `main`. It takes one connection and sends it exclamation marks for ever.
use edaf55_project.Base.{
  ℕ, zero, suc, ◌+◌, ◌≤◌, ◌≡◌, refl, ◌∙◌, ap, sym, List, ◌++◌, append-nil, append_assoc, replicate,
  replicate-append, take, Option, some, ℤ, arith, codes,
}
use edaf55_project.Memory.{◌>>=◌}
use edaf55_project.Socket.{Socket, IsLawful}
use edaf55_project.Os.{Os, Call, call, socket, bind, listen, accept}
use edaf55_project.BasicServer.{send_all, send_all_total, failed, whole}

-- What stands before the loop: `newSocket` and the calls. No result is looked at, but for what is
-- printed behind `listen`.
unfoldable pub start : Os → List Call → ℤ × List Call
unfolding call
start os log =
    let welcome = call os socket log in
    let bound = call os (bind welcome.0 36346) welcome.1 in
    let listening = call os (listen welcome.0 5) bound.1 in call os (accept welcome.0) listening.1

abbrev mark : List ℕ
mark = codes "!"

module _ (S : Socket) where
  -- So many rounds of the loop, which has no end: the connection behind them.
  unfoldable pub send_marks : ℕ → S.State → Option S.State
  send_marks zero s = some s
  send_marks (suc rounds) s = send_all S s mark 1 >>= λ r. send_marks rounds r.1

module _ (S : Socket) (L : IsLawful S) where
  -- A round sends one mark, or fails and sends none.
  send_all-mark :
      (s : S.State)
      → (r : ℤ) × (t : S.State) × (k : ℕ) × (send_all S s mark 1 ≡ some (r, t))
        × (k ≤ 1)
        × (S.wire t ≡ S.wire s ++ replicate k b'!')
  send_all-mark s =
      let (r, t, runs, ended) = send_all_total S L s mark 1 (omega arith) in
      elim ended [
        | failed m e lt w ↦
            let none_sent : m ≡ 0 = omega arith in
            (r, t, 0, runs, omega arith, w ∙ ap (λ i. S.wire s ++ take i mark) none_sent)
        | whole e w ↦ (r, t, 1, runs, omega arith, w)
      ]

  -- On a lawful socket every number of rounds returns, and all that has been sent are exclamation
  -- marks, at most one for each round; a round that fails is not noticed.
  pub send_marks-replicate :
      (rounds : ℕ) (s : S.State)
      → (t : S.State) × (k : ℕ) × (send_marks S rounds s ≡ some t)
        × (k ≤ rounds)
        × (S.wire t ≡ S.wire s ++ replicate k b'!')
  unfolding send_marks
  send_marks-replicate zero s = (s, 0, refl, omega arith, sym (append-nil (S.wire s)))
  send_marks-replicate (suc rounds) s =
      let (r, t, k, runs, few, w) = send_all-mark s in
      let (u, j, more, few', w') = send_marks-replicate rounds t in
      (
        u,
        k + j,
        ap (λ o. o >>= λ r. send_marks S rounds r.1) runs ∙ more,
        omega arith,
        w'
            ∙ ap (λ x. x ++ replicate j b'!') w
            ∙ append_assoc (S.wire s) (replicate k b'!') (replicate j b'!')
            ∙ ap (λ x. S.wire s ++ x) (replicate-append k j b'!'),
      )
