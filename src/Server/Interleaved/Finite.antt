-- ===== src/Server/Interleaved/Finite.antt =====
-- The threads that take no new completion take only so many steps.
use amsserver.Server.Interleaved.Claims.{replace_ne}
use amsserver.Server.Interleaved.Steps.{locked, calls, faults}
use native.Mathlib.Decide.{ℕ_discrete}
use mathlib.Core.Path.{subst}
use amsserver.Io.World.{World}
use amsserver.Server.Interleaved.Steps.{
  Stepped, advance, Steps, goes, gives, breaks, waits, blocked,
}
use amsserver.Base.{
  refl, ◌≡◌, if◌then◌else◌, true, false, zero, suc, done, crash, ℕ, Bool, arith, ap, ◌∙◌, Outcome,
  sym,
}
use mathlib.Core.WellFounded.{Acc}
use amsserver.Server.Interleaved.Pool.{Pool, Thread, Goes, goes_on, replace}

-- `q` is what is left of `p` after one step in some world.
abbrev Follows : Steps Bool → Steps Bool → Type 1
Follows q p = (w v : World) × (advance p w ≡ goes q v)

abbrev AccFrom : Stepped Bool → Type 1
AccFrom (goes q v) = Acc Follows q
AccFrom _ = Unit {1}

Follows-of : (p : Steps Bool) → ((w : World) → AccFrom (advance p w)) → Acc Follows p
Follows-of p h = Acc.intro p (λ q (w, v, e). subst AccFrom e (h w))

AccFrom-wait :
    (b : Bool) (k : Steps Bool) (w : World)
    → Acc Follows k
    → AccFrom (if b then blocked else goes k w)
AccFrom-wait true k w h = tt
AccFrom-wait false k w h = h

AccFrom-call :
    {B : Type 0} (o : Outcome (B × World)) (k : B → Steps Bool)
    → ((b : B) → Acc Follows (k b))
    → AccFrom (elim o [ done (b, v) ↦ goes (k b) v | crash e ↦ faults e ])
AccFrom-call (done (b, v)) k h = h b
AccFrom-call (crash e) k h = tt

next_Acc : (p : Steps Bool) (w : World) → AccFrom (advance p w)
unfolding advance
next_Acc (gives x) w = tt
next_Acc (breaks e) w = tt
next_Acc (waits k) w = AccFrom-wait w.heap_locked k (locked w) (Follows-of k (λ u. next_Acc k u))
next_Acc (calls m k) w = AccFrom-call (m w) k (λ b. Follows-of (k b) (λ u. next_Acc (k b) u))

-- One thread takes only so many steps.
Follows-Acc : (p : Steps Bool) → Acc Follows p
Follows-Acc p = Follows-of p (next_Acc p)

-- `t` comes of `s` by one step.
abbrev pub Comes : ℕ → Pool → Pool → Type 1
Comes n t s = Goes n s t

replace_at {ℓ} : {A : Type ℓ} (f : ℕ → A) (i n : ℕ) (x : A) → i ≡ n → replace f i x n ≡ x
replace_at f i n x e = ground (arith, e)

-- One more thread.
module _ (n : ℕ) (all : (s : Pool) → Acc (Comes n) s) where
  more_Acc :
      (p : Steps Bool)
      → Acc Follows p
      → (s : Pool) → (s.thread n).rest ≡ p
      → Acc (Comes n) s
      → Acc (Comes (suc n)) s
  more_Acc p (Acc.intro _ h) s e (Acc.intro _ k) = Acc.intro s λ t g. elim g [
    | goes_on i rest w l f q ↦ elim (ℕ_discrete i n) [
      | yes d ↦
          more_Acc rest
            (h rest (
              s.world,
              w,
              subst (λ r. advance r s.world ≡ goes rest w) (ap (λ j. (s.thread j).rest) d ∙ e) f,
            ))
            t
            (ap (λ u. (u.thread n).rest) q
              ∙ ap (λ (u : Thread). u.rest) (replace_at s.thread i n _ d))
            (all t)
      | no d ↦
          more_Acc p (Acc.intro p h) t
            (ap (λ u. (u.thread n).rest) q
              ∙ ap (λ (u : Thread). u.rest) (replace_ne s.thread i n _ (λ c. d (sym c)))
              ∙ e)
            (k t (goes_on i rest w (omega arith) f q))
    ]
  ]

pub Comes-Acc : (n : ℕ) (s : Pool) → Acc (Comes n) s
Comes-Acc zero s =
    Acc.intro s (λ t g. elim g [ goes_on i rest w l f q ↦ absurd (omega (arith, l)) ])
Comes-Acc (suc n) s =
    more_Acc n (Comes-Acc n) (s.thread n).rest (Follows-Acc (s.thread n).rest) s refl
      (Comes-Acc n s)
