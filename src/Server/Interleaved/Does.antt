-- ===== src/Server/Interleaved/Does.antt =====
-- Steps that no other thread interrupts, against the monad of Io/World.
pub mod Posts
use amsserver.Base.{refl, ◌≡◌, if◌then◌else◌, true, false, done, crash, Outcome, ◌∙◌, Bool, ap}
use amsserver.Server.Interleaved.Steps.{
  Steps, gives, breaks, waits, calls, call, pure, wait_mutex, run, locked,
}
use amsserver.Server.Interleaved.Steps
use amsserver.Io.World.{World, M, give, lift, ◌>>=◌, wait_heap_protect_mutex}

-- With no other thread between them, the steps do what the handler does.
abbrev pub Does : {A : Type 0} → Steps A → M A → Type 0
Does p m = (w : World) → run p w ≡ m w

pub run-bind :
    {A B : Type 0} (p : Steps A) (f : A → Steps B) (w : World)
    → run (Steps.◌>>=◌ p f) w ≡ (run p >>= λ x. run (f x)) w
unfolding run
run-bind (gives x) f w = refl
run-bind (breaks e) f w = refl
run-bind (waits k) f w = run-bind k f (locked w)
run-bind {A} {B} (calls {B = C} m k) f w = go (λ b v. run-bind (k b) f v) (m w)
  where
    go :
        ((b : C) (v : World) → run (Steps.◌>>=◌ (k b) f) v ≡ (run (k b) >>= λ x. run (f x)) v)
        → (o : Outcome (C × World))
        → (elim o as (λ _. Outcome (B × World)) [
          | done (b, v) ↦ run (Steps.◌>>=◌ (k b) f) v
          | crash e ↦ crash e
        ])
          ≡ elim (elim o as (λ _. Outcome (A × World)) [
            | done (b, v) ↦ run (k b) v
            | crash e ↦ crash e
          ])
              as (λ _. Outcome (B × World)) [ done (x, v) ↦ run (f x) v | crash e ↦ crash e ]
    go h (done (b, v)) = h b v
    go h (crash e) = refl

bind-same :
    {A B : Type 0} (o : Outcome (A × World)) (f g : A → M B)
    → ((x : A) (v : World) → f x v ≡ g x v)
    → elim o as (λ _. Outcome (B × World)) [ done (x, v) ↦ f x v | crash e ↦ crash e ]
      ≡ elim o as (λ _. Outcome (B × World)) [ done (x, v) ↦ g x v | crash e ↦ crash e ]
bind-same (done (x, v)) f g h = h x v
bind-same (crash e) f g h = refl

pub Does-bind :
    {A B : Type 0} (p : Steps A) (m : M A) (f : A → Steps B) (g : A → M B)
    → Does p m
    → ((x : A) → Does (f x) (g x))
    → Does (Steps.◌>>=◌ p f) (m >>= g)
Does-bind {A} {B} p m f g d e w =
    run-bind p f w
    ∙ ap
        (λ (o : Outcome (A × World)). elim o as (λ _. Outcome (B × World)) [
          | done (x, v) ↦ run (f x) v
          | crash e ↦ crash e
        ])
        (d w)
    ∙ bind-same (m w) (λ x. run (f x)) g e

pub Does-call : {A : Type 0} (m : M A) → Does (call m) m
unfolding run
Does-call {A} m w = go (m w)
  where
    go :
        (o : Outcome (A × World))
        → elim o as (λ _. Outcome (A × World)) [ done (x, v) ↦ done (x, v) | crash e ↦ crash e ] ≡ o
    go (done (x, v)) = refl
    go (crash e) = refl

pub Does-gives : {A : Type 0} (x : A) → Does (gives x) (give x)
unfolding run
Does-gives x w = refl

pub Does-if :
    {A : Type 0} (b : Bool) (p q : Steps A) (m n : M A)
    → Does p m
    → Does q n
    → Does (if b then p else q) (if b then m else n)
Does-if true p q m n d e = d
Does-if false p q m n d e = e
