-- ===== src/Server/Interleaved/Rules.antt =====
-- A run of steps that keeps to what it owns, whatever the other threads do between them.
use mathlib.Core.Path.{subst}
use amsserver.Base.{
  true, false, done, crash, Fault, ◌≡◌, refl, if◌then◌else◌, ◌≢◌, Outcome, Bool, use_after_free,
  IsTame, sym,
}
use amsserver.Server.Interleaved.Steps.{Steps, gives, breaks, waits, calls, pure, ◌>>=◌}
use amsserver.Server.Interleaved.Own.{Own, Claims, Steady, After}
use amsserver.Io.World.{World, M}

-- At each step the world is any that has what the thread owns. A thread that has the mutex does not fault.
unfoldable pub Keeps : {A : Type 0} → (Fault → Type 0) → Own → Steps A → (A → Own → Type 0) → Type 0
Keeps F r (gives x) Q = Q x r
Keeps F r (breaks e) Q = F e × (r.locks ≡ false)
Keeps F r (waits k) Q = (r.locks ≡ false) × Keeps F (record r { locks = true }) k Q
Keeps F r (calls m k) Q = (w : World) → Steady w → Claims r w → elim (m w) as (λ _. Type 0) [
  | done (b, v) ↦ (s : Own) × After r s w v × Keeps F s (k b) Q
  | crash e ↦ F e × (r.locks ≡ false)
]

-- No fault of the steps is an access to a released object.
abbrev pub Tame : Fault → Type 0
Tame e = e ≢ use_after_free

Keeps-mono_call :
    {A B : Type 0} (F : Fault → Type 0) (r : Own) (w : World) (o : Outcome (B × World))
    (k : B → Steps A) (P Q : A → Own → Type 0)
    → ((b : B) (s : Own) → Keeps F s (k b) P → Keeps F s (k b) Q)
    → elim o as (λ _. Type 0) [
      | done (b, v) ↦ (s : Own) × After r s w v × Keeps F s (k b) P
      | crash e ↦ F e × (r.locks ≡ false)
    ]
    → elim o as (λ _. Type 0) [
      | done (b, v) ↦ (s : Own) × After r s w v × Keeps F s (k b) Q
      | crash e ↦ F e × (r.locks ≡ false)
    ]
Keeps-mono_call F r w (done (b, v)) k P Q h (s, a, c) = (s, a, h b s c)
Keeps-mono_call F r w (crash e) k P Q h f = f

pub Keeps-mono :
    {A : Type 0} (F : Fault → Type 0) (r : Own) (p : Steps A) (P Q : A → Own → Type 0)
    → Keeps F r p P
    → ((x : A) (s : Own) → P x s → Q x s)
    → Keeps F r p Q
unfolding Keeps
Keeps-mono F r (gives x) P Q k h = h x r k
Keeps-mono F r (breaks e) P Q k h = k
Keeps-mono F r (waits p) P Q (l, k) h = (l, Keeps-mono F (record r { locks = true }) p P Q k h)
Keeps-mono F r (calls m p) P Q k h =
    λ w s c. Keeps-mono_call F r w (m w) p P Q (λ b t i. Keeps-mono F t (p b) P Q i h) (k w s c)

Keeps-bind_call :
    {A B C : Type 0} (F : Fault → Type 0) (r : Own) (w : World) (o : Outcome (C × World))
    (k : C → Steps A) (f : A → Steps B) (P : A → Own → Type 0) (Q : B → Own → Type 0)
    → ((b : C) (s : Own) → Keeps F s (k b) P → Keeps F s (k b >>= f) Q)
    → elim o as (λ _. Type 0) [
      | done (b, v) ↦ (s : Own) × After r s w v × Keeps F s (k b) P
      | crash e ↦ F e × (r.locks ≡ false)
    ]
    → elim o as (λ _. Type 0) [
      | done (b, v) ↦ (s : Own) × After r s w v × Keeps F s (k b >>= f) Q
      | crash e ↦ F e × (r.locks ≡ false)
    ]
Keeps-bind_call F r w (done (b, v)) k f P Q h (s, a, c) = (s, a, h b s c)
Keeps-bind_call F r w (crash e) k f P Q h g = g

pub Keeps-bind :
    {A B : Type 0} (F : Fault → Type 0) (r : Own) (p : Steps A) (f : A → Steps B)
    (P : A → Own → Type 0) (Q : B → Own → Type 0)
    → Keeps F r p P
    → ((x : A) (s : Own) → P x s → Keeps F s (f x) Q)
    → Keeps F r (p >>= f) Q
unfolding Keeps
Keeps-bind F r (gives x) f P Q k h = h x r k
Keeps-bind F r (breaks e) f P Q k h = k
Keeps-bind F r (waits p) f P Q (l, k) h = (l, Keeps-bind F (record r { locks = true }) p f P Q k h)
Keeps-bind F r (calls m p) f P Q k h =
    λ w s c. Keeps-bind_call F r w (m w) p f P Q (λ b t i. Keeps-bind F t (p b) f P Q i h) (k w s c)

pub Keeps-if :
    {A : Type 0} (F : Fault → Type 0) (r : Own) (b : Bool) (p q : Steps A) (Q : A → Own → Type 0)
    → Keeps F r p Q
    → Keeps F r q Q
    → Keeps F r (if b then p else q) Q
Keeps-if F r true p q Q h k = h
Keeps-if F r false p q Q h k = k

pub Keeps-pure :
    {A B : Type 0} (r : Own) (o : Outcome A) (f : A → Steps B) (Q : B → Own → Type 0)
    → IsTame o
    → r.locks ≡ false
    → ((x : A) → o ≡ done x → Keeps Tame r (f x) Q)
    → Keeps Tame r (pure o >>= f) Q
unfolding Keeps
Keeps-pure r (done x) f Q t l h = h x refl
Keeps-pure r (crash e) f Q t l h = (t, l)

-- A call that is known to return.
pub Keeps-call :
    {A B : Type 0} (F : Fault → Type 0) (r s : Own) (w v : World) (m : M B) (k : B → Steps A)
    (b : B) (Q : A → Own → Type 0)
    → m w ≡ done (b, v)
    → After r s w v
    → Keeps F s (k b) Q
    → elim (m w) as (λ _. Type 0) [
      | done (b, v) ↦ (s : Own) × After r s w v × Keeps F s (k b) Q
      | crash e ↦ F e × (r.locks ≡ false)
    ]
Keeps-call {A} {B} F r s w v m k b Q e a h =
    subst
      (λ (o : Outcome (B × World)). elim o as (λ _. Type 0) [
        | done (b, v) ↦ (s : Own) × After r s w v × Keeps F s (k b) Q
        | crash e ↦ F e × (r.locks ≡ false)
      ])
      (sym e) (s, a, h)

pub Keeps-gives :
    {A : Type 0} (F : Fault → Type 0) (r : Own) (x : A) (Q : A → Own → Type 0)
    → Q x r
    → Keeps F r (gives x) Q
unfolding Keeps
Keeps-gives F r x Q h = h

-- The thread waits for the mutex, which it does not have, and then has it.
pub Keeps-waits :
    {A : Type 0} (r : Own) (k : Steps A) (Q : A → Own → Type 0)
    → r.locks ≡ false
    → Keeps Tame (record r { locks = true }) k Q
    → Keeps Tame r (waits k) Q
unfolding Keeps
Keeps-waits r k Q l h = (l, h)

pub Keeps-breaks :
    {A : Type 0} (r : Own) (e : Fault) (Q : A → Own → Type 0)
    → Tame e
    → r.locks ≡ false
    → Keeps Tame r (breaks e) Q
unfolding Keeps
Keeps-breaks r e Q h l = (h, l)

pub Keeps-ended :
    {A : Type 0} (F : Fault → Type 0) (r : Own) (p : Steps A) (x : A) (Q : A → Own → Type 0)
    → p ≡ gives x
    → Keeps F r p Q
    → Q x r
unfolding Keeps
Keeps-ended F r p x Q e k = subst (λ m. Keeps F r m Q) e k
