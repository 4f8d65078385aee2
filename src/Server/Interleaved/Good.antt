-- ===== src/Server/Interleaved/Good.antt =====
-- The invariant of the threads: the shared objects are divided among them and the pending operations.
use amsserver.Server.Interleaved.Claims.{replace_self, replace_ne, Fits-sym}
use amsserver.Server.Interleaved.Accepts.{Unlocked}
use amsserver.Server.Interleaved.Rounds.{Allows}
use mathlib.Core.Path.{subst}
use amsserver.Server.Interleaved.Rules.{Keeps}
use native.Mathlib.Decide.{ℕ_discrete}
use amsserver.Io.World.{World}
use amsserver.Server.Interleaved.Own.{Own, Steady, Claims, After, Fits}
use amsserver.Base.{true, ℕ, ◌≢◌, ◌≡◌, ◌<◌, sym, ap, ◌∙◌, inl, inr}
use amsserver.Server.Interleaved.Pool.{Pool, Thread, replace}

pub record Good (n : ℕ) (s : Pool) : Type 0 where
  pub owns : ℕ → Own
  pub steady : Steady s.world
  pub claims : (i : ℕ) → Claims (owns i) s.world
  pub fits : (i j : ℕ) → i ≢ j → Fits (owns i) (owns j)
  -- If the heap mutex is taken, one of the threads has it.
  pub locked : s.world.heap_locked ≡ true → (i : ℕ) × (i < n) × ((owns i).locks ≡ true)
  pub works : (i : ℕ) → Keeps (Allows (s.thread i).kind) (owns i) (s.thread i).rest Unlocked

module _ (n : ℕ) (s : Pool) (g : Good n s) (i : ℕ) (r : Own) (v : World) (th : Thread) (l : i < n)
    (a : After (g.owns i) r s.world v) where
  abbrev owns_then : ℕ → Own
  owns_then = replace g.owns i r

  abbrev pool_then : Pool
  pool_then = record { world = v; thread = replace s.thread i th }

  Claims-then : (j : ℕ) → Claims (owns_then j) v
  Claims-then j = elim (ℕ_discrete j i) [
    | yes e ↦
        subst (λ j. Claims (owns_then j) v) (sym e)
          (subst (λ o. Claims o v) (sym (replace_self g.owns i r)) a.claims)
    | no d ↦
        subst (λ o. Claims o v) (sym (replace_ne g.owns i j r d))
          (a.others (g.owns j) (g.fits i j (λ e. d (sym e))) (g.claims j)).1
  ]

  -- The thread beside another.
  Fits-self : (j : ℕ) → j ≢ i → Fits r (owns_then j)
  Fits-self j d =
      subst (Fits r) (sym (replace_ne g.owns i j r d))
        (a.others (g.owns j) (g.fits i j (λ e. d (sym e))) (g.claims j)).0

  Fits-then : (j k : ℕ) → j ≢ k → Fits (owns_then j) (owns_then k)
  Fits-then j k d = elim (ℕ_discrete j i) [
    | yes e ↦
        subst (λ o. Fits o (owns_then k)) (sym (ap owns_then e ∙ replace_self g.owns i r))
          (Fits-self k (λ f. d (e ∙ sym f)))
    | no c ↦ elim (ℕ_discrete k i) [
      | yes e ↦
          subst (Fits (owns_then j)) (sym (ap owns_then e ∙ replace_self g.owns i r))
            (Fits-sym r (owns_then j) (Fits-self j c))
      | no b ↦
          subst (λ o. Fits o (owns_then k)) (sym (replace_ne g.owns i j r c))
            (subst (Fits (g.owns j)) (sym (replace_ne g.owns i k r b)) (g.fits j k d))
    ]
  ]

  locked_then : v.heap_locked ≡ true → (j : ℕ) × (j < n) × ((owns_then j).locks ≡ true)
  locked_then e = elim (a.mutex e) [
    | inl m ↦ (i, l, ap (λ o. o.locks) (replace_self g.owns i r) ∙ m)
    | inr (f, keeps) ↦ stays keeps (g.locked f)
  ]
    where
      stays :
          ((g.owns i).locks ≡ true → r.locks ≡ true)
          → (j : ℕ) × (j < n) × ((g.owns j).locks ≡ true)
          → (j : ℕ) × (j < n) × ((owns_then j).locks ≡ true)
      stays keeps (j, l, m) = (
        j,
        l,
        elim (ℕ_discrete j i) [
          | yes d ↦
              ap (λ k. (owns_then k).locks) d
              ∙ ap (λ o. o.locks) (replace_self g.owns i r)
              ∙ keeps (sym (ap (λ k. (g.owns k).locks) d) ∙ m)
          | no d ↦ ap (λ o. o.locks) (replace_ne g.owns i j r d) ∙ m
        ],
      )

  works_then :
      Keeps (Allows th.kind) r th.rest Unlocked
      → (j : ℕ)
      → Keeps (Allows (pool_then.thread j).kind) (owns_then j) (pool_then.thread j).rest Unlocked
  works_then k j = elim (ℕ_discrete j i) [
    | yes e ↦
        subst
          (λ j.
            Keeps (Allows (pool_then.thread j).kind) (owns_then j) (pool_then.thread j).rest
              Unlocked)
          (sym e)
          (subst
            (λ o. Keeps (Allows (pool_then.thread i).kind) o (pool_then.thread i).rest Unlocked)
            (sym (replace_self g.owns i r))
            (subst (λ (t : Thread). Keeps (Allows t.kind) r t.rest Unlocked)
              (sym (replace_self s.thread i th)) k))
    | no d ↦
        subst (λ o. Keeps (Allows (pool_then.thread j).kind) o (pool_then.thread j).rest Unlocked)
          (sym (replace_ne g.owns i j r d))
          (subst (λ (t : Thread). Keeps (Allows t.kind) (g.owns j) t.rest Unlocked)
            (sym (replace_ne s.thread i j th d)) (g.works j))
  ]

  -- A thread goes on, and the others do not.
  pub Good-then : Keeps (Allows th.kind) r th.rest Unlocked → Good n pool_then
  Good-then k = record {
    owns = owns_then;
    steady = a.steady;
    claims = Claims-then;
    fits = Fits-then;
    locked = locked_then;
    works = works_then k;
  }
