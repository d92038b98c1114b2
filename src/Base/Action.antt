-- ===== src/Base/Action.antt =====
-- Code that reads and changes a state, and that may not return.
use cloudisk_server.Base.Runs
use cloudisk_server.Base.Runs.{Outcome, ok, exits, undefined, waits, Ensures}

abbrev pub Action : Type 0 → Type 0 → Type 0
Action S A = S → Outcome (A × S)

infixl 5 ◌>>=◌ ◌>>◌
abbrev pub ◌>>=◌ : {S A B : Type 0} → Action S A → (A → Action S B) → Action S B
◌>>=◌ m f s = Runs.◌>>=◌ (m s) (λ r. f r.0 r.1)

abbrev pub ◌>>◌ : {S A B : Type 0} → Action S A → Action S B → Action S B
◌>>◌ m k s = Runs.◌>>=◌ (m s) (λ r. k r.1)

abbrev pub pure : {S A : Type 0} → A → Action S A
pure a s = ok (a, s)

abbrev pub lift : {S A : Type 0} → Outcome A → Action S A
lift m s = Runs.◌>>=◌ m (λ a. ok (a, s))

abbrev pub exit : {S A : Type 0} → Action S A
exit s = exits

abbrev pub undefined_here : {S A : Type 0} → Action S A
undefined_here s = undefined

-- Every normal return from `s` leaves a value and a state of which `P` holds.
abbrev pub Leaves {κ} : {S A : Type 0} → (A → S → Type κ) → Action S A → S → Type κ
Leaves P m s = Ensures (λ r. P r.0 r.1) (m s)
