-- ===== src/Server/Steps.antt =====
-- Code over a state, with its steps shut, and what such code keeps.
use cloudisk_server.Base.{
  ◌≡◌, refl, Bool, true, false, if◌then◌else◌, Outcome, ok, exits, undefined, waits, Ensures,
  Ensures->>=,
}
use cloudisk_server.Base.Runs

abbrev pub Exec : Type 0 → Type 0 → Type 0
Exec S A = S → Outcome (A × S)

module _ {S A : Type 0} where
  unfoldable pub pure : A → Exec S A
  pure a s = ok (a, s)

  unfoldable pub lift : Outcome A → Exec S A
  lift m s = Runs.◌>>=◌ m λ a. ok (a, s)

  unfoldable pub gets : (S → A) → Exec S A
  gets f s = ok (f s, s)

module _ {S : Type 0} where
  unfoldable pub modify : (S → S) → Exec S (Unit {0})
  modify f s = ok (tt, f s)

module _ {S A B : Type 0} where
  infixl 5 ◌>>=◌ ◌>>◌
  unfoldable pub ◌>>=◌ : Exec S A → (A → Exec S B) → Exec S B
  ◌>>=◌ m f s = Runs.◌>>=◌ (m s) λ r. f r.0 r.1

  unfoldable pub ◌>>◌ : Exec S A → Exec S B → Exec S B
  ◌>>◌ m k s = Runs.◌>>=◌ (m s) λ r. k r.1

-- From a state where `P` holds, every normal return of `m` leaves one where `Q` holds.
pub record Takes {S A : Type 0} (P Q : S → Type 0) (m : Exec S A) : Type 0 where
  pub at : (s : S) → P s → Ensures (λ r. Q r.1) (m s)

module _ {S A : Type 0} {P Q : S → Type 0} where
  pub Takes-if :
      (b : Bool) (m n : Exec S A)
      → (b ≡ true → Takes P Q m)
      → (b ≡ false → Takes P Q n)
      → Takes P Q (if b then m else n)
  Takes-if true m n tm tn = tm refl
  Takes-if false m n tm tn = tn refl

module _ {S A : Type 0} {P : S → Type 0} where
  pub Takes-pure : (a : A) → Takes P P (pure a)
  unfolding pure
  Takes-pure a = record { at = λ s h. h }

  pub Takes-gets : (f : S → A) → Takes P P (gets f)
  unfolding gets
  Takes-gets f = record { at = λ s h. h }

  pub Takes-lift : (m : Outcome A) → Takes P P (lift m)
  unfolding lift
  Takes-lift (ok a) = record { at = λ s h. h }
  Takes-lift exits = record { at = λ s h. tt }
  Takes-lift undefined = record { at = λ s h. tt }
  Takes-lift waits = record { at = λ s h. tt }

module _ {S A B : Type 0} {P Q : S → Type 0} where
  pub Takes-bind :
      (R : S → Type 0) (m : Exec S A) (f : A → Exec S B)
      → Takes P R m
      → ((a : A) → Takes R Q (f a))
      → Takes P Q (m >>= f)
  unfolding ◌>>=◌
  Takes-bind R m f tm tf = record {
    at = λ s h.
        Ensures->>= (λ r. R r.1) (λ r. Q r.1) (m s) _ (tm.at s h) (λ r hr. (tf r.0).at r.1 hr);
  }

  pub Takes-then :
      (R : S → Type 0) (m : Exec S A) (k : Exec S B)
      → Takes P R m
      → Takes R Q k
      → Takes P Q (m >> k)
  unfolding ◌>>◌
  Takes-then R m k tm tk = record {
    at = λ s h. Ensures->>= (λ r. R r.1) (λ r. Q r.1) (m s) _ (tm.at s h) (λ r hr. tk.at r.1 hr);
  }

  -- A step that keeps `P`, and then the rest.
  pub Keeps-bind :
      (m : Exec S A) (f : A → Exec S B)
      → Takes P P m
      → ((a : A) → Takes P Q (f a))
      → Takes P Q (m >>= f)
  Keeps-bind = Takes-bind P

  pub Keeps-then : (m : Exec S A) (k : Exec S B) → Takes P P m → Takes P Q k → Takes P Q (m >> k)
  Keeps-then = Takes-then P

  -- A step that brings `Q` about, and a rest that keeps it.
  pub Ends-then : (m : Exec S A) (k : Exec S B) → Takes P Q m → Takes Q Q k → Takes P Q (m >> k)
  Ends-then = Takes-then Q

pub ruleset keeps_rules = (Takes-if, Takes-pure, Takes-gets, Takes-lift, Keeps-bind, Keeps-then)
