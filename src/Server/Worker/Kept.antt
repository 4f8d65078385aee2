-- ===== src/Server/Worker/Kept.antt =====
-- What every call of the handlers keeps, whatever the system answers: a handle that is there stays,
-- and a socket is closed only if it is the new one of a failed accept.
use mathlib.Core.Path.{subst}
use amsserver.Base.{
  refl, ◌≡◌, if◌then◌else◌, ◌∷◌, [], none, some, true, false, inl, inr, done, crash, ℕ, Outcome,
  ◌∙◌, Bool, List, ◌≢◌, ◌⊎◌,
}
use amsserver.Io.World.{World, M, Answers, lift, give, ◌>>=◌, ◌>>◌}

-- `s` is in the list.
abbrev pub Has : ℕ → List ℕ → Type 0
Has s [] = ⊥
Has s (x ∷ xs) = (s ≡ x) ⊎ Has s xs

pub record Kept (a : Answers) (w v : World) : Type 0 where
  pub handles_stay : (q : ℕ) → w.handles q ≢ none → v.handles q ≢ none
  pub listener : v.listenhandle ≡ w.listenhandle
  pub closed_new : (s : ℕ) → Has s v.closed → Has s w.closed ⊎ (a.wsa_socket ≡ some s)

-- Of the worlds that a run returns with.
abbrev pub After : {A : Type 0} → Outcome (A × World) → (World → Type 0) → Type 0
After (done (x, v)) P = P v
After (crash e) P = Unit {0}

abbrev pub Keeps : {A : Type 0} → Answers → M A → Type 0
Keeps a m = (w : World) → After (m w) (Kept a w)

pub Kept-refl : (a : Answers) (w : World) → Kept a w w
Kept-refl a w = record { handles_stay = λ q h. h; listener = refl; closed_new = λ s h. inl h }

pub Kept-trans : (a : Answers) (u v w : World) → Kept a u v → Kept a v w → Kept a u w
Kept-trans a u v w p q = record {
  handles_stay = λ k h. q.handles_stay k (p.handles_stay k h);
  listener = q.listener ∙ p.listener;
  closed_new = λ s h. elim (q.closed_new s h) [ inl i ↦ p.closed_new s i | inr e ↦ inr e ];
}

After-mono :
    {A : Type 0} (o : Outcome (A × World)) (P Q : World → Type 0)
    → After o P
    → ((v : World) → P v → Q v)
    → After o Q
After-mono (done (x, v)) P Q p k = k v p
After-mono (crash e) P Q p k = tt

After-bind :
    {A B : Type 0} (a : Answers) (w : World) (o : Outcome (A × World)) (f : A → M B)
    → After o (Kept a w)
    → ((x : A) → Keeps a (f x))
    → After (elim o [ done (x, v) ↦ f x v | crash e ↦ crash e ]) (Kept a w)
After-bind a w (done (x, v)) f p k =
    After-mono (f x v) (Kept a v) (Kept a w) (k x v) (λ u q. Kept-trans a w v u p q)
After-bind a w (crash e) f p k = tt

pub Keeps-bind :
    {A B : Type 0} (a : Answers) (m : M A) (f : A → M B)
    → Keeps a m
    → ((x : A) → Keeps a (f x))
    → Keeps a (m >>= f)
Keeps-bind a m f p k w = After-bind a w (m w) f (p w) k

pub Keeps-then :
    {B : Type 0} (a : Answers) (m : M (Unit {0})) (n : M B)
    → Keeps a m
    → Keeps a n
    → Keeps a (m >> n)
Keeps-then a m n p k = Keeps-bind a m (λ x. n) p (λ x. k)

pub Keeps-give : {A : Type 0} (a : Answers) (x : A) → Keeps a (give x)
Keeps-give a x w = Kept-refl a w

pub Keeps-if :
    {A : Type 0} (a : Answers) (b : Bool) (m n : M A)
    → Keeps a m
    → Keeps a n
    → Keeps a (if b then m else n)
Keeps-if a true m n p q = p
Keeps-if a false m n p q = q

After-lift : {A : Type 0} (a : Answers) (w : World) (o : Outcome A) → After (lift o w) (Kept a w)
After-lift a w (done x) = Kept-refl a w
After-lift a w (crash e) = tt

pub Keeps-lift : {A : Type 0} (a : Answers) (o : Outcome A) → Keeps a (lift o)
Keeps-lift a o w = After-lift a w o

-- A change of the world beside its handles and its closed sockets.
pub Kept-same :
    (a : Answers) (w v : World)
    → v.handles ≡ w.handles
    → v.listenhandle ≡ w.listenhandle
    → v.closed ≡ w.closed
    → Kept a w v
Kept-same a w v h l c = record {
  handles_stay = λ q n. rw h n;
  listener = l;
  closed_new = λ s i. inl (subst (Has s) c i);
}
