-- ===== src/Base/Runs.antt =====
-- What a run of C code can come to.
use mathlib.Core.Path.{◌≡◌, refl, ap}
use mathlib.Core.Bool.{Bool, true, false}
use cloudisk_server.Base.Tests.{if◌then◌else◌}

-- `exits` is a call of exit; `undefined` is a read or write outside an object, a null pointer, or
-- a use of a value that was never set; `waits` is a blocking call to which no input comes.
pub data Outcome {ℓ} (A : Type ℓ) : Type ℓ where
  ok : A → Outcome A
  exits undefined waits : Outcome A

infixl 5 ◌>>=◌ ◌>>◌
abbrev pub ◌>>=◌ {ℓ κ} : {A : Type ℓ} {B : Type κ} → Outcome A → (A → Outcome B) → Outcome B
ok a >>= f = f a
exits >>= f = exits
undefined >>= f = undefined
waits >>= f = waits

abbrev pub ◌>>◌ {ℓ κ} : {A : Type ℓ} {B : Type κ} → Outcome A → Outcome B → Outcome B
m >> k = m >>= λ _. k

-- `a` if the access is in range.
abbrev pub in_range {ℓ} : {A : Type ℓ} → Bool → A → Outcome A
in_range true a = ok a
in_range false a = undefined

-- Every normal return satisfies `P`.
abbrev pub Ensures {ℓ κ} : {A : Type ℓ} → (A → Type κ) → Outcome A → Type κ
Ensures P (ok a) = P a
Ensures P exits = Unit
Ensures P undefined = Unit
Ensures P waits = Unit

pub Ensures->>= {ℓ κ μ ν} :
    {A : Type ℓ} {B : Type κ} (P : A → Type μ) (Q : B → Type ν) (m : Outcome A) (f : A → Outcome B)
    → Ensures P m
    → ((a : A) → P a → Ensures Q (f a))
    → Ensures Q (m >>= f)
Ensures->>= P Q (ok a) f h k = k a h
Ensures->>= P Q exits f h k = tt
Ensures->>= P Q undefined f h k = tt
Ensures->>= P Q waits f h k = tt

-- A rest that ensures `Q` whatever it starts from.
pub Ensures-after {ℓ κ ν} :
    {A : Type ℓ} {B : Type κ} (Q : B → Type ν) (m : Outcome A) (f : A → Outcome B)
    → ((a : A) → Ensures Q (f a))
    → Ensures Q (m >>= f)
Ensures-after Q (ok a) f k = k a
Ensures-after Q exits f k = tt
Ensures-after Q undefined f k = tt
Ensures-after Q waits f k = tt

-- A value, or `d` for a run that does not return.
abbrev pub value_or {ℓ} : {A : Type ℓ} → A → Outcome A → A
value_or d (ok a) = a
value_or d exits = d
value_or d undefined = d
value_or d waits = d

pub ok_inj {ℓ} : {A : Type ℓ} {a b : A} → ◌≡◌ {A = Outcome A} (ok a) (ok b) → a ≡ b
ok_inj {a} e = ap (value_or a) e

-- A rest that may use what the run before it came to.
pub Ensures-reads {ℓ κ ν} :
    {A : Type ℓ} {B : Type κ} (Q : B → Type ν) (m : Outcome A) (f : A → Outcome B)
    → ((a : A) → m ≡ ok a → Ensures Q (f a))
    → Ensures Q (m >>= f)
Ensures-reads Q (ok a) f k = k a refl
Ensures-reads Q exits f k = tt
Ensures-reads Q undefined f k = tt
Ensures-reads Q waits f k = tt

-- Both branches of a test.
pub Ensures-if {ℓ κ} :
    {A : Type ℓ} (P : A → Type κ) (b : Bool) (m n : Outcome A)
    → (b ≡ true → Ensures P m)
    → (b ≡ false → Ensures P n)
    → Ensures P (if b then m else n)
Ensures-if P true m n h k = h refl
Ensures-if P false m n h k = k refl
