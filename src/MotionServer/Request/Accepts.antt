-- ===== src/MotionServer/Request/Accepts.antt =====
-- Which requests the two parsers accept, and what a notification records.
use edaf55_project.Base.{
  ℕ, ◌≡◌, ◌≢◌, refl, ◌↔◌, ◌⊎◌, inl, inr, List, ◌∷◌, ◌++◌, codes, drop, length, some, Bool, true,
  false, ◌&&◌, arith, ℤ, pos, Bool-cases, if◌then◌else◌,
}
use edaf55_project.Text.{strncmp, is_digit, atol, format_long}
use edaf55_project.Text.Prefix.{Begins, AllNonzero, strncmp_begins, Begins-strncmp}
use edaf55_project.Text.Decimal.{IsLong, atol-format_long}
use edaf55_project.MotionServer.{GlobalState}
use edaf55_project.MotionServer.Request.{
  parse_http_request, parse_motion_request, remote_time, notified,
}

-- The method is GET, in capitals or in small letters.
abbrev pub HasMethod : List ℕ → Type 0
HasMethod buf = Begins (codes "GET ") buf ⊎ Begins (codes "get ") buf

-- Behind the method stands one of the two paths of the service.
abbrev pub HasPath : List ℕ → Type 0
HasPath buf = Begins (codes "/ ") (drop 4 buf) ⊎ Begins (codes "/motion.txt ") (drop 4 buf)

strncmp_iff : (p s : List ℕ) → AllNonzero p → (strncmp s p (length p) ≡ false) ↔ Begins p s
strncmp_iff p s h = (Begins-strncmp p s h, λ (rest, e). rw e (strncmp_begins p rest h))

either :
    (a b : Bool) {A B : Type 0}
    → ((a ≡ false) ↔ A)
    → ((b ≡ false) ↔ B)
    → (((a && b) ≡ false) ↔ (A ⊎ B))
either false b f g = (λ _. inl (f.0 refl), λ _. refl)
either true false f g = (λ _. inr (g.0 refl), λ _. refl)
either true true f g = (λ e. cc, λ s. elim s [ inl a ↦ f.1 a | inr b ↦ g.1 b ])

method_iff :
    (buf : List ℕ)
    → ((strncmp buf (codes "GET ") 4 && strncmp buf (codes "get ") 4) ≡ false) ↔ HasMethod buf
method_iff buf =
    either _ _ (strncmp_iff (codes "GET ") buf (omega arith))
      (strncmp_iff (codes "get ") buf (omega arith))

path_iff :
    (buf : List ℕ)
    → ((strncmp (drop 4 buf) (codes "/ ") 2 && strncmp (drop 4 buf) (codes "/motion.txt ") 12)
        ≡ false)
      ↔ HasPath buf
path_iff buf =
    either _ _ (strncmp_iff (codes "/ ") _ (omega arith))
      (strncmp_iff (codes "/motion.txt ") _ (omega arith))

true_not_false : true ≢ false
true_not_false e = cc

outcome :
    (m p : Bool) {M P : Type 0}
    → ((m ≡ false) ↔ M)
    → ((p ≡ false) ↔ P)
    → let r : ℕ = if m then 501 else if p then 404 else 0 in
      ((r ≡ 0) ↔ (M × P)) × ((r ≡ 404) ↔ (M × ¬ P)) × ((r ≡ 501) ↔ (¬ M))
outcome false false f g = (
  (λ _. (f.0 refl, g.0 refl), λ _. refl),
  (λ e. absurd (omega arith), λ h. absurd (h.1 (g.0 refl))),
  (λ e. absurd (omega arith), λ h. absurd (h (f.0 refl))),
)
outcome false true f g = (
  (λ e. absurd (omega arith), λ h. absurd (true_not_false (g.1 h.1))),
  (λ _. (f.0 refl, λ h. true_not_false (g.1 h)), λ _. refl),
  (λ e. absurd (omega arith), λ h. absurd (h (f.0 refl))),
)
outcome true p f g = (
  (λ e. absurd (omega arith), λ h. absurd (true_not_false (f.1 h.0))),
  (λ e. absurd (omega arith), λ h. absurd (true_not_false (f.1 h.0))),
  (λ _ h. true_not_false (f.1 h), λ _. refl),
)

-- `parse_http_request` gives 0 exactly for a request with one of the two spellings of GET and one
-- of the two paths, 404 exactly for one with another path, and 501 exactly for any other text.
pub parse_http_request_iff :
    (buf : List ℕ)
    → ((parse_http_request buf ≡ 0) ↔ (HasMethod buf × HasPath buf))
      × ((parse_http_request buf ≡ 404) ↔ (HasMethod buf × ¬ HasPath buf))
      × ((parse_http_request buf ≡ 501) ↔ (¬ HasMethod buf))
unfolding parse_http_request
parse_http_request_iff buf = outcome _ _ (method_iff buf) (path_iff buf)

-- What stands behind the method and behind `/motion` in a notification.
abbrev pub notification : List ℕ → List ℕ
notification rest = codes "GET /motion" ++ rest

remote_time-notification :
    (rest : List ℕ)
    → remote_time (notification rest)
      ≡ (if strncmp rest (codes "?Message=") 9 then some (pos 0) else atol (drop 9 rest))
unfolding remote_time
remote_time-notification rest = refl

parse_notification :
    (rest : List ℕ) (now : ℤ) (state : GlobalState)
    → parse_motion_request (notification rest) now state
      ≡ notified (remote_time (notification rest)) now state
unfolding parse_motion_request strncmp
parse_notification rest now state = refl

-- A notification with a time stamp that fits a `long`, ended by a byte that is no digit, sets both
-- times and nothing else, whatever older bytes the buffer still holds behind it.
pub parse_motion_request_message :
    (t now : ℤ) (c : ℕ) (rest : List ℕ) (state : GlobalState)
    → IsLong t
    → is_digit c ≡ false
    → parse_motion_request
        (notification (codes "?Message=" ++ (format_long t ++ (c ∷ rest))))
        now
        state
      ≡ some (1, record state { t_remote = t; t_local = now })
parse_motion_request_message t now c rest state fits stop = rw (
  parse_notification,
  remote_time-notification,
  strncmp_begins (codes "?Message=") (format_long t ++ (c ∷ rest)) (omega arith),
  atol-format_long t c rest fits stop,
)

-- A parsed notification has result 1 and sets the local time to `now` and else at most the remote
-- time; every other result leaves the state as it was.
pub parse_motion_request_changes :
    (buf : List ℕ) (now : ℤ) (state state' : GlobalState) (r : ℕ)
    → parse_motion_request buf now state ≡ some (r, state')
    → ((r ≡ 1) × (state' ≡ record state { t_remote = state'.t_remote; t_local = now }))
      ⊎ ((r ≢ 1) × (state' ≡ state))
unfolding parse_motion_request
parse_motion_request_changes buf now state state' r h = ground arith

-- A notification without the parameter sets the remote time to 0.
pub parse_motion_request_plain :
    (rest : List ℕ) (now : ℤ) (state : GlobalState)
    → ¬ Begins (codes "?Message=") rest
    → parse_motion_request (notification rest) now state
      ≡ some (1, record state { t_remote = pos 0; t_local = now })
parse_motion_request_plain rest now state lacks =
    elim (Bool-cases (strncmp rest (codes "?Message=") 9)) [
      | inl differ ↦ rw (parse_notification, remote_time-notification, differ)
      | inr same ↦ absurd (lacks (Begins-strncmp (codes "?Message=") rest (omega arith) same))
    ]
