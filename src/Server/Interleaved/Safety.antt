-- ===== src/Server/Interleaved/Safety.antt =====
-- Workers that run at the same time: the objects that they access, and the mutex.
use mathlib.Core.Path.{subst}
use amsserver.Server.Interleaved.Accepts.{Unlocked}
use amsserver.Server.Interleaved.Good.{Good}
use amsserver.Io.World.{World}
use amsserver.Server.Interleaved.Own.{Own, Steady}
use amsserver.Server.Interleaved.Rounds.{Allows}
use amsserver.Server.Interleaved.Steps.{Stepped, ended, faults, goes, advance, blocked}
use amsserver.Io.Buffer.{recv_posted, send_posted, null_posted, accept_posted, OperationType}
use amsserver.Base.{refl, ◌≡◌, true, false, Fault, Bytes, ℕ, use_after_free, Bool, ◌<◌}
use amsserver.Server.Interleaved.Pool.{Pool, Reach}
use amsserver.Server.Interleaved.Moves.{Lands, advance-Lands, Reach-Good}

-- The thread can take its next step.
abbrev pub IsGoing : {A : Type 0} → Stepped A → Type 0
IsGoing (goes p v) = Unit {0}
IsGoing _ = ⊥

only_send : (o : OperationType) → Allows o use_after_free → o ≡ send_posted
only_send accept_posted a = absurd (a refl)
only_send recv_posted a = absurd (a refl)
only_send send_posted a = refl
only_send null_posted a = absurd (a refl)

-- The thread that has the mutex does not wait for it, has not ended its round, and does not fault.
holder-IsGoing :
    (F : Fault → Type 0) (r : Own) (w : World) (o : Stepped Bool)
    → r.locks ≡ true
    → Lands F r w Unlocked o
    → IsGoing o
holder-IsGoing F r w (ended x) l k = cc
holder-IsGoing F r w blocked l (e, f) = cc
holder-IsGoing F r w (faults e) l (t, f) = cc
holder-IsGoing F r w (goes p v) l k = tt

module _ (sizes : Bytes → ℕ) (n : ℕ) (w : World) (s : Pool) where
  pub lands :
      (g : Good n s) (i : ℕ)
      → Lands
          (Allows (s.thread i).kind)
          (g.owns i)
          s.world
          Unlocked
          (advance (s.thread i).rest s.world)
  lands g i =
      advance-Lands _ (g.owns i) (s.thread i).rest Unlocked s.world (g.works i) g.steady
        (g.claims i)

  -- From a world with the invariant of the threads in which the mutex is free, n threads take their steps
  -- and the completions in any order. Then every pending operation has a live handle, each pending accept
  -- and receive a live io, and no two operations have the same io.
  pub Reach-Steady : Steady w → w.heap_locked ≡ false → Reach sizes n w s → Steady s.world
  Reach-Steady h e r = (Reach-Good sizes n w s h e r).steady

  -- From a world with the invariant of the threads in which the mutex is free, whatever the order of the
  -- steps: a thread that accesses a released object handles the completion of a send.
  pub released_send :
      Steady w
      → w.heap_locked ≡ false
      → Reach sizes n w s
      → (i : ℕ) → advance (s.thread i).rest s.world ≡ faults use_after_free
      → (s.thread i).kind ≡ send_posted
  released_send h e r i f =
      let g = Reach-Good sizes n w s h e r in
      only_send (s.thread i).kind (subst (Lands _ (g.owns i) s.world Unlocked) f (lands g i)).0

  -- From a world with the invariant of the threads in which the mutex is free, whatever the order of the
  -- steps: if a thread waits for the heap mutex, one of the threads can take a step.
  pub no_deadlock :
      Steady w
      → w.heap_locked ≡ false
      → Reach sizes n w s
      → (i : ℕ) → advance (s.thread i).rest s.world ≡ blocked
      → (j : ℕ) × (j < n) × IsGoing (advance (s.thread j).rest s.world)
  no_deadlock h e r i f =
      let g = Reach-Good sizes n w s h e r in
      let (j, l, m) = g.locked (subst (Lands _ (g.owns i) s.world Unlocked) f (lands g i)).0 in
      (j, l, holder-IsGoing _ (g.owns j) s.world _ m (lands g j))
