-- ===== src/Server/Interleaved/Takes.antt =====
-- What a thread owns when it takes the completion of a pending operation.
use amsserver.Server.Interleaved.Kept.{AreKept-same, IsClear-IsFree}
use mathlib.Core.Path.{subst}
use amsserver.Server.System.Taken.{without, IsFree-take}
use native.Mathlib.Decide.{ℕ_discrete}
use amsserver.Server.System.Owned.{Spares, IsFree}
use amsserver.Server.Interleaved.Handles.{learn}
use amsserver.Io.World.{World, Pending}
use amsserver.Io.Buffer.{send_posted, accept_posted, recv_posted, null_posted, OperationType}
use amsserver.Base.{refl, ◌≡◌, ◌∷◌, [], none, ℕ, List, ◌≢◌, ◌++◌, sym, arith, inl, inr}
use amsserver.Server.Interleaved.Own.{
  Own, holds, looks, none_of, leaves, sends, Role, After, IsClear, AreKept, AreDistinct, Shares,
  Backs, Steady, IsKept, Claim, Claims,
}
use amsserver.Server.Interleaved.Claims.{assign, Claim-same, After-at}

IsClear-take :
    (p : ℕ) (op : Pending) (before after : List Pending)
    → IsClear p (before ++ op ∷ after)
    → (op.io ≢ p) × IsClear p (before ++ after)
IsClear-take p op [] after f = f
IsClear-take p op (x ∷ before) after (c, f) =
    let (d, e) = IsClear-take p op before after f in (d, (c, e))

AreKept-take :
    (w : World) (op : Pending) (before after : List Pending)
    → AreKept w (before ++ op ∷ after)
    → IsKept w op × AreKept w (before ++ after)
AreKept-take w op [] after b = b
AreKept-take w op (x ∷ before) after (c, b) =
    let (d, e) = AreKept-take w op before after b in (d, (c, e))

AreDistinct-take :
    (op : Pending) (before after : List Pending)
    → AreDistinct (before ++ op ∷ after)
    → IsClear op.io (before ++ after) × AreDistinct (before ++ after)
AreDistinct-take op [] after d = d
AreDistinct-take op (x ∷ before) after (c, d) =
    let (n, f) = IsClear-take x.io op before after c in
    let (g, h) = AreDistinct-take op before after d in (((λ e. n (sym e)), g), (f, h))

-- An accept or a receive is pending on no io that a thread has.
spared : (k : OperationType) (p : ℕ) → k ≢ send_posted → Spares k p p → ⊥
spared accept_posted p n s = s refl
spared recv_posted p n s = s refl
spared send_posted p n s = n refl
spared null_posted p n s = s refl

Backs-held :
    (k : OperationType) (p : ℕ) (w : World) → k ≢ send_posted → Backs k p w → w.ios p ≢ none
Backs-held accept_posted p w n b = b
Backs-held recv_posted p w n b = b
Backs-held send_posted p w n b = absurd (n refl)
Backs-held null_posted p w n b = b

module _ (w : World) (op : Pending) (before after : List Pending) (s : Steady w)
    (e : w.pending ≡ before ++ op ∷ after) where
  abbrev rest_of : World
  rest_of = without before after w

  pub IsKept-taken : IsKept w op
  IsKept-taken = (AreKept-take w op before after (subst (AreKept w) e s.kept)).0

  IsClear-taken : IsClear op.io (before ++ after)
  IsClear-taken = (AreDistinct-take op before after (subst AreDistinct e s.distinct)).0

  Steady-taken : Steady rest_of
  Steady-taken = record {
    next_io_given = s.next_io_given;
    next_handle_given = s.next_handle_given;
    listener_given = s.listener_given;
    listener_there = s.listener_there;
    kept =
        AreKept-same w rest_of (before ++ after) refl refl (λ k h. h)
          (AreKept-take w op before after (subst (AreKept w) e s.kept)).1;
    distinct = (AreDistinct-take op before after (subst AreDistinct e s.distinct)).1;
  }

  Claim-rest : (y : Role) (p : ℕ) → Claim y p w → Claim y p rest_of
  Claim-rest y p =
      Claim-same y p w rest_of (omega arith) refl
        (λ f. (IsClear-take p op before after (subst (IsClear p) e f)).1)
        (λ f. (IsFree-take p op before after (subst (IsFree p) e f)).1)

  -- What a thread has of the io of a pending operation.
  clear_not : IsClear op.io w.pending → ⊥
  clear_not f = (IsClear-take op.io op before after (subst (IsClear op.io) e f)).0 refl

  free_not : op.kind ≢ send_posted → IsFree op.io w.pending → ⊥
  free_not n f =
      spared op.kind op.io n (IsFree-take op.io op before after (subst (IsFree op.io) e f)).0

  near_held :
      op.kind ≢ send_posted → (y : Role) → Claim y op.io w → Shares holds y × Claim y op.io rest_of
  near_held n none_of c = (tt, tt)
  near_held n holds c = absurd (clear_not c.3)
  near_held n sends c = absurd (clear_not c.3)
  near_held n leaves c = absurd (free_not n c.3)
  near_held n looks c = absurd (free_not n c.1)

  near_sent : (y : Role) → Claim y op.io w → Shares looks y × Claim y op.io rest_of
  near_sent none_of c = (tt, tt)
  near_sent holds c = absurd (clear_not c.3)
  near_sent sends c = absurd (clear_not c.3)
  near_sent leaves c = (tt, Claim-rest leaves op.io c)
  near_sent looks c = (tt, Claim-rest looks op.io c)

  pub After-held :
      (r : Own) → op.kind ≢ send_posted → Claims r w → After r (assign op.io holds r) w rest_of
  After-held r n =
      let k = IsKept-taken in
      After-at r w rest_of op.io holds Steady-taken
        (k.1, k.2, Backs-held op.kind op.io w n k.4, IsClear-taken) (λ y p d c. Claim-rest y p c)
        (λ y f c. near_held n y c) (λ q i. i) refl

  pub After-sent :
      (r : Own) → op.kind ≡ send_posted → Claims r w → After r (assign op.io looks r) w rest_of
  After-sent r n =
      let k = IsKept-taken in
      After-at r w rest_of op.io looks Steady-taken
        (
          k.2,
          IsClear-IsFree op.io (before ++ after) IsClear-taken,
          subst (λ o. Backs o op.io w) n k.4,
        )
        (λ y p d c. Claim-rest y p c) (λ y f c. near_sent y c) (λ q i. i) refl

pub After-trans : (q r s : Own) (u v w : World) → After q r u v → After r s v w → After q s u w
After-trans q r s u v w a b = record {
  steady = b.steady;
  claims = b.claims;
  others = λ t f c. let (g, d) = a.others t f c in b.others t g d;
  mutex = λ e. elim (b.mutex e) [
    | inl m ↦ inl m
    | inr (f, g) ↦ elim (a.mutex f) [ inl m ↦ inl (g m) | inr (h, i) ↦ inr (h, λ j. g (i j)) ]
  ];
}

pub After-learn :
    (r s : Own) (q : ℕ) (w v : World) → v.handles q ≢ none → After r s w v → After r (learn q s) w v
After-learn r s q w v h a = record {
  steady = a.steady;
  claims = record {
    ios = a.claims.ios;
    handles = λ k e. elim (ℕ_discrete q k) [
      | yes f ↦ subst (λ k. v.handles k ≢ none) f h
      | no n ↦ a.claims.handles k (ground (arith, e))
    ];
    mutex = a.claims.mutex;
  };
  others = λ t f c. let (g, d) = a.others t f c in (record { ios = g.ios; mutex = g.mutex }, d);
  mutex = a.mutex;
}
