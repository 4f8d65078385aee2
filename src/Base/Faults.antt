-- ===== src/Base/Faults.antt =====
-- What a run of the code ends in: a value, or a fault after which C says nothing more.
use amsserver.Base.Tests.{if◌then◌else◌}
use mathlib.Core.Bool.{Bool, true, false}
use mathlib.Core.Logic.{◌≢◌}
use mathlib.Core.Path.{◌≡◌, refl}

pub data Fault : Type 0 where
  -- A `_s` function of the run-time library refuses its arguments and ends the process.
  invalid_parameter : Fault
  -- An access past the end of a buffer, or before its start.
  overrun underrun : Fault
  -- An access through a null pointer, or to memory that was released.
  null_pointer use_after_free : Fault

pub data Outcome {ℓ} (A : Type ℓ) : Type ℓ where
  done : A → Outcome A
  crash : Fault → Outcome A

infixl 5 ◌>>=◌
abbrev pub ◌>>=◌ {ℓ κ} : {A : Type ℓ} {B : Type κ} → Outcome A → (A → Outcome B) → Outcome B
done a >>= f = f a
crash e >>= f = crash e

-- The run ends with a value of which `P` holds.
abbrev pub Returns {ℓ} : {A : Type ℓ} → Outcome A → (A → Type 0) → Type 0
Returns (done a) P = P a
Returns (crash e) P = ⊥

pub Returns-bind {ℓ κ} :
    {A : Type ℓ} {B : Type κ} (m : Outcome A) (f : A → Outcome B) (P : A → Type 0) (Q : B → Type 0)
    → Returns m P
    → ((a : A) → P a → Returns (f a) Q)
    → Returns (m >>= f) Q
Returns-bind (done a) f P Q p k = k a p
Returns-bind (crash e) f P Q p k = absurd p

-- A run that returns is `done` of some value.
pub Returns-done {ℓ} :
    {A : Type ℓ} (m : Outcome A) (P : A → Type 0) → Returns m P → (a : A) × (m ≡ done a) × P a
Returns-done (done a) P p = (a, refl, p)
Returns-done (crash e) P p = absurd p

pub Returns-eq {ℓ} :
    {A : Type ℓ} (m : Outcome A) (P : A → Type 0) (a : A) → m ≡ done a → P a → Returns m P
Returns-eq m P a e p = rw e p

pub Returns-mono {ℓ} :
    {A : Type ℓ} (m : Outcome A) (P Q : A → Type 0)
    → Returns m P
    → ((a : A) → P a → Q a)
    → Returns m Q
Returns-mono (done a) P Q p k = k a p
Returns-mono (crash e) P Q p k = absurd p

pub Returns-if {ℓ} :
    {A : Type ℓ} (b : Bool) (m n : Outcome A) (P : A → Type 0)
    → Returns m P
    → Returns n P
    → Returns (if b then m else n) P
Returns-if true m n P p q = p
Returns-if false m n P p q = q

-- A computation that accesses no released object: other faults may end it.
abbrev pub IsTame {ℓ} : {A : Type ℓ} → Outcome A → Type 0
IsTame (done a) = Unit {0}
IsTame (crash e) = e ≢ use_after_free

pub IsTame-bind {ℓ κ} :
    {A : Type ℓ} {B : Type κ} (m : Outcome A) (f : A → Outcome B)
    → IsTame m
    → ((a : A) → IsTame (f a))
    → IsTame (m >>= f)
IsTame-bind (done a) f t k = k a
IsTame-bind (crash e) f t k = t

pub IsTame-if {ℓ} :
    {A : Type ℓ} (b : Bool) (m n : Outcome A) → IsTame m → IsTame n → IsTame (if b then m else n)
IsTame-if true m n t u = t
IsTame-if false m n t u = u
