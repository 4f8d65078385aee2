-- ===== src/Io/Yields.antt =====
-- What holds of the result of a run, if it returns.
use mathlib.Core.Path.{subst}
use amsserver.Base.{if◌then◌else◌, true, false, done, crash, Outcome, Bool, ◌≡◌}
use amsserver.Io.World.{World, M, ◌>>=◌}

abbrev pub Yields : {A : Type 0} → (A → Type 0) → Outcome (A × World) → Type 0
Yields P (done (x, v)) = P x
Yields P (crash e) = Unit {0}

pub Yields-bind :
    {A B : Type 0} (P : B → Type 0) (m : M A) (f : A → M B) (w : World)
    → ((x : A) (v : World) → Yields P (f x v))
    → Yields P ((m >>= f) w)
Yields-bind {A} P m f w h = go (m w)
  where
    go : (o : Outcome (A × World)) → Yields P (elim o [ done (a, v) ↦ f a v | crash e ↦ crash e ])
    go (done (x, v)) = h x v
    go (crash e) = tt

-- A bind, with what the first part yields.
pub Yields-bind-with :
    {A B : Type 0} (Q : A → Type 0) (P : B → Type 0) (m : M A) (f : A → M B) (w : World)
    → Yields Q (m w)
    → ((x : A) (v : World) → Q x → Yields P (f x v))
    → Yields P ((m >>= f) w)
Yields-bind-with {A} Q P m f w q h = go (m w) q
  where
    go :
        (o : Outcome (A × World))
        → Yields Q o
        → Yields P (elim o [ done (a, v) ↦ f a v | crash e ↦ crash e ])
    go (done (x, v)) q = h x v q
    go (crash e) q = tt

pub Yields-if :
    {A : Type 0} (P : A → Type 0) (b : Bool) (m n : M A) (w : World)
    → Yields P (m w)
    → Yields P (n w)
    → Yields P ((if b then m else n) w)
Yields-if P true m n w p q = p
Yields-if P false m n w p q = q

-- The same of a run that is known to return.
pub Yields-done :
    {A : Type 0} (P : A → Type 0) (o : Outcome (A × World)) (x : A) (v : World)
    → Yields P o
    → o ≡ done (x, v)
    → P x
Yields-done P o x v h e = subst (Yields P) e h
