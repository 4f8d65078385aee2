-- ===== src/Server/Interleaved/Claims.antt =====
-- What a step on one io leaves of what each thread owns.
use mathlib.Core.Path.{subst}
use native.Mathlib.Decide.{ℕ_discrete}
use amsserver.Base.{refl, ◌≡◌, none, inl, inr, ℕ, ◌⊎◌, ◌≤◌, ◌≢◌, arith, sym, ◌∙◌}
use amsserver.Server.Interleaved.Own.{
  Role, none_of, holds, sends, leaves, looks, Own, Shares, IsClear, Claim, Claims, Fits, Steady,
  After,
}
use amsserver.Server.Interleaved.Pool.{replace}
use amsserver.Server.System.Owned.{IsFree}
use amsserver.Io.World.{World}

abbrev pub assign : ℕ → Role → Own → Own
assign c x r = record r { role = replace r.role c x }

-- Only the threads whose role is none share what one holds.
pub alone : (x y : Role) → (x ≡ holds) ⊎ (x ≡ sends) → Shares x y → y ≡ none_of
alone none_of y (inl e) s = cc
alone none_of y (inr e) s = cc
alone holds none_of e s = refl
alone holds holds e s = absurd s
alone holds sends e s = absurd s
alone holds leaves e s = absurd s
alone holds looks e s = absurd s
alone sends none_of e s = refl
alone sends holds e s = absurd s
alone sends sends e s = absurd s
alone sends leaves e s = absurd s
alone sends looks e s = absurd s
alone leaves y (inl e) s = cc
alone leaves y (inr e) s = cc
alone looks y (inl e) s = cc
alone looks y (inr e) s = cc

pub Shares-none : (x : Role) → Shares x none_of
Shares-none none_of = tt
Shares-none holds = tt
Shares-none sends = tt
Shares-none leaves = tt
Shares-none looks = tt

pub Shares-sym : (x y : Role) → Shares x y → Shares y x
Shares-sym none_of y s = Shares-none y
Shares-sym x none_of s = tt
Shares-sym leaves looks s = tt
Shares-sym looks leaves s = tt
Shares-sym looks looks s = tt
Shares-sym holds holds s = absurd s
Shares-sym holds sends s = absurd s
Shares-sym holds leaves s = absurd s
Shares-sym holds looks s = absurd s
Shares-sym sends holds s = absurd s
Shares-sym sends sends s = absurd s
Shares-sym sends leaves s = absurd s
Shares-sym sends looks s = absurd s
Shares-sym leaves holds s = absurd s
Shares-sym leaves sends s = absurd s
Shares-sym leaves leaves s = absurd s
Shares-sym looks holds s = absurd s
Shares-sym looks sends s = absurd s

pub Fits-sym : (r s : Own) → Fits r s → Fits s r
Fits-sym r s f = record {
  ios = λ p. Shares-sym (r.role p) (s.role p) (f.ios p);
  mutex = λ a b. f.mutex b a;
}

-- A claim stays where the io does, and the operations on it.
pub Claim-same :
    (x : Role) (p : ℕ) (w v : World)
    → w.next_io ≤ v.next_io
    → v.ios p ≡ w.ios p
    → (IsClear p w.pending → IsClear p v.pending)
    → (IsFree p w.pending → IsFree p v.pending)
    → Claim x p w
    → Claim x p v
Claim-same none_of p w v n i c f k = tt
Claim-same holds p w v n i c f (a, l, t, q) = (a, omega arith, (λ e. t (sym i ∙ e)), c q)
Claim-same sends p w v n i c f (a, l, t, q, b) = (a, omega arith, (λ e. t (sym i ∙ e)), c q, rw i b)
Claim-same leaves p w v n i c f (a, l, t, q, b) =
    (a, omega arith, (λ e. t (sym i ∙ e)), f q, rw i b)
Claim-same looks p w v n i c f (l, q, b) = (omega arith, f q, rw i b)

pub replace_self {ℓ} : {A : Type ℓ} (f : ℕ → A) (c : ℕ) (x : A) → replace f c x c ≡ x
replace_self f c x = ground arith

pub replace_ne {ℓ} : {A : Type ℓ} (f : ℕ → A) (c p : ℕ) (x : A) → p ≢ c → replace f c x p ≡ f p
replace_ne f c p x n = ground arith

-- A step on the io `c` alone, which leaves the role `x` on it.
module _ (r : Own) (w v : World) (c : ℕ) (x : Role) (steady : Steady v) (own : Claim x c v)
    (far : (y : Role) (p : ℕ) → p ≢ c → Claim y p w → Claim y p v)
    (near : (y : Role) → Shares (r.role c) y → Claim y c w → Shares x y × Claim y c v)
    (handles : (k : ℕ) → w.handles k ≢ none → v.handles k ≢ none)
    (mutex : v.heap_locked ≡ w.heap_locked) where
  Claims-of : Claims r w → Claims (assign c x r) v
  Claims-of h = record {
    ios = λ p. elim (ℕ_discrete p c) [
      | yes e ↦
          subst (λ q. Claim (replace r.role c x q) q v) (sym e)
            (subst (λ y. Claim y c v) (sym (replace_self r.role c x)) own)
      | no d ↦
          subst (λ y. Claim y p v) (sym (replace_ne r.role c p x d)) (far (r.role p) p d (h.ios p))
    ];
    handles = λ k e. handles k (h.handles k e);
    mutex = λ e. mutex ∙ h.mutex e;
  }

  others_of : (t : Own) → Fits r t → Claims t w → Fits (assign c x r) t × Claims t v
  others_of t f h = (
    record {
      ios = λ p. elim (ℕ_discrete p c) [
        | yes e ↦
            subst (λ q. Shares (replace r.role c x q) (t.role q)) (sym e)
              (subst (λ y. Shares y (t.role c)) (sym (replace_self r.role c x))
                (near (t.role c) (f.ios c) (h.ios c)).0)
        | no d ↦ subst (λ y. Shares y (t.role p)) (sym (replace_ne r.role c p x d)) (f.ios p)
      ];
      mutex = f.mutex;
    },
    record {
      ios = λ p. elim (ℕ_discrete p c) [
        | yes e ↦ subst (λ q. Claim (t.role q) q v) (sym e) (near (t.role c) (f.ios c) (h.ios c)).1
        | no d ↦ far (t.role p) p d (h.ios p)
      ];
      handles = λ k e. handles k (h.handles k e);
      mutex = λ e. mutex ∙ h.mutex e;
    },
  )

  pub After-at : Claims r w → After r (assign c x r) w v
  After-at h = record {
    steady = steady;
    claims = Claims-of h;
    others = others_of;
    mutex = λ e. inr (sym mutex ∙ e, λ a. a);
  }
