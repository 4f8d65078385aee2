-- ===== src/Server/Interleaved/Moves.antt =====
-- Every move of a thread keeps the invariant.
use amsserver.Server.Interleaved.Calls.{After-refl}
use amsserver.Server.Interleaved.Rounds.{Allows}
use mathlib.Core.Path.{subst}
use amsserver.Server.Interleaved.Completions.{begun}
use amsserver.Server.Interleaved.Accepts.{Unlocked}
use amsserver.Server.Interleaved.Claims.{Claim-same}
use amsserver.Server.Interleaved.Good.{Good, Good-then}
use amsserver.Server.Interleaved.Kept.{Steady-of, AreKept-same}
use amsserver.Server.Interleaved.Steps.{locked, Stepped, ended, faults}
use amsserver.Server.Interleaved.Rules.{Keeps, Keeps-gives, Keeps-ended, Tame}
use amsserver.Io.World.{World}
use amsserver.Server.Interleaved.Steps.{advance, Steps, goes, gives, breaks, waits, blocked, calls}
use amsserver.Server.Interleaved.Own.{Own, Steady, Claims, After, Role, Claim, none_of}
use amsserver.Base.{
  refl, ◌≡◌, if◌then◌else◌, true, false, inl, Fault, Bool, done, crash, Outcome, Bytes, ℕ, arith,
  sym,
}
use amsserver.Server.Interleaved.Pool.{
  Pool, Move, Reach, idle, takes, steps, exits, begins, moves, goes_on,
}

-- The thread that takes the mutex has it.
pub After-wait :
    (r : Own) (w : World)
    → w.heap_locked ≡ false
    → Steady w
    → Claims r w
    → After r (record r { locks = true }) w (locked w)
After-wait r w e s c = record {
  steady = same s;
  claims = record {
    ios = λ p. stay (r.role p) p (c.ios p);
    handles = c.handles;
    mutex = λ m. refl;
  };
  others = λ t f d. (
    record { ios = f.ios; mutex = λ a b. absurd (not_both (d.mutex b)) },
    record { ios = λ p. stay (t.role p) p (d.ios p); handles = d.handles; mutex = λ m. refl },
  );
  mutex = λ m. inl refl;
}
  where
    same : Steady w → Steady (locked w)
    same s =
        Steady-of w (locked w) refl refl refl refl s.listener_there
          (AreKept-same w (locked w) w.pending refl refl (λ k h. h) s.kept) s

    stay : (x : Role) (p : ℕ) → Claim x p w → Claim x p (locked w)
    stay x p = Claim-same x p w (locked w) (omega arith) refl (λ f. f) (λ f. f)

    not_both : w.heap_locked ≡ true → ⊥
    not_both f = cc

-- What may come of a step of a run that keeps to what its thread owns.
abbrev pub Lands :
    {A : Type 0} → (Fault → Type 0) → Own → World → (A → Own → Type 0) → Stepped A → Type 0
Lands F r w Q (ended x) = Q x r
Lands F r w Q blocked = (w.heap_locked ≡ true) × (r.locks ≡ false)
Lands F r w Q (faults e) = F e × (r.locks ≡ false)
Lands F r w Q (goes p v) = (s : Own) × After r s w v × Keeps F s p Q

pub advance-Lands :
    {A : Type 0} (F : Fault → Type 0) (r : Own) (p : Steps A) (Q : A → Own → Type 0) (w : World)
    → Keeps F r p Q
    → Steady w
    → Claims r w
    → Lands F r w Q (advance p w)
unfolding advance Keeps
advance-Lands F r (gives x) Q w k s c = k
advance-Lands F r (breaks x) Q w k s c = k
advance-Lands F r (waits p) Q w (l, k) s c = free w.heap_locked refl
  where
    free : (b : Bool) → w.heap_locked ≡ b → Lands F r w Q (if b then blocked else goes p (locked w))
    free true e = (e, l)
    free false e = (record r { locks = true }, After-wait r w e s c, k)
advance-Lands F r (calls {B} m p) Q w k s c = called (m w) (k w s c)
  where
    called :
        (o : Outcome (B × World))
        → elim o as (λ _. Type 0) [
          | done (b, v) ↦ (s : Own) × After r s w v × Keeps F s (p b) Q
          | crash e ↦ F e × (r.locks ≡ false)
        ]
        → Lands F r w Q (elim o [ done (b, v) ↦ goes (p b) v | crash e ↦ faults e ])
    called (done (b, v)) h = h
    called (crash e) h = h

-- At the start no thread owns anything.
abbrev pub nothing : Own
nothing = record { role = λ p. none_of; knows = λ k. false; locks = false }

pub nothing-Claims : (w : World) → Claims nothing w
nothing-Claims w = record { ios = λ p. tt; handles = λ k f. cc; mutex = λ f. cc }

module _ (sizes : Bytes → ℕ) (n : ℕ) where
  -- A move keeps the invariant.
  pub Move-Good : (s t : Pool) → Move sizes n s t → Good n s → Good n t
  Move-Good s t (takes i a c op before after bytes l d e k p f) g =
      let q = Keeps-ended _ (g.owns i) (s.thread i).rest true Unlocked d (g.works i) in
      let (r, x, y) =
        begun sizes a c op s.world before after bytes (g.owns i) g.steady e k p q (g.claims i) in
      subst (Good n) (sym f) (Good-then n s g i r _ _ l x y)
  Move-Good s t (steps (goes_on i rest w l e f)) g =
      let (r, x, y) = subst (Lands (Allows (s.thread i).kind) (g.owns i) s.world Unlocked) e (
        advance-Lands _ (g.owns i) (s.thread i).rest Unlocked s.world (g.works i) g.steady
          (g.claims i)) in
      subst (Good n) (sym f) (Good-then n s g i r w _ l x y)
  Move-Good s t (exits i l d f) g =
      let q = Keeps-ended _ (g.owns i) (s.thread i).rest true Unlocked d (g.works i) in
      subst (Good n) (sym f) (
        Good-then n s g i (g.owns i) s.world _ l
          (After-refl (g.owns i) s.world g.steady (g.claims i))
          (Keeps-gives Tame (g.owns i) false Unlocked q))

  pub begun-Good :
      (w : World)
      → Steady w
      → w.heap_locked ≡ false
      → Good n (record { world = w; thread = λ i. idle })
  begun-Good w s e = record {
    owns = λ i. nothing;
    steady = s;
    claims = λ i. nothing-Claims w;
    fits = λ i j d. record { ios = λ p. tt; mutex = λ f g. cc };
    locked = λ f. cc;
    works = λ i. Keeps-gives Tame nothing true Unlocked refl;
  }

  pub Reach-Good :
      (w : World) (s : Pool) → Steady w → w.heap_locked ≡ false → Reach sizes n w s → Good n s
  Reach-Good w t h e (begins u f) = subst (Good n) (sym f) (begun-Good w h e)
  Reach-Good w t h e (moves {s} r m) = Move-Good s t m (Reach-Good w s h e r)
