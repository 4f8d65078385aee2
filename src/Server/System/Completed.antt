-- ===== src/Server/System/Completed.antt =====
-- Any sequence of completions of the pending operations.
use amsserver.Base.{
  refl, ◌≡◌, ◌∷◌, true, false, done, crash, Outcome, Bytes, Bool, ℕ, ◌≢◌, List, use_after_free,
  ◌++◌, inl, inr, Bool-cases, ◌↔◌, sym,
}
use mathlib.Core.Path.{subst}
use amsserver.Server.System.Rounds.{taken, worker_round-Safe, taken-Ready}
use amsserver.Server.System.Taken.{without, store_received, IsBacked-taken, Sound-without}
use amsserver.Server.System.Owned.{Owns}
use amsserver.Server.System.Safe.{Safe}
use amsserver.Server.System.Sound.{Sound}
use amsserver.Server.Worker.{worker_round, Completion}
use amsserver.Server.Worker.Kept.{After}
use amsserver.Server.Worker.Released.{worker_round-freed}
use amsserver.Server.HttpRecv.{http_do_recv}
use amsserver.Io.World.{World, Pending, Answers}
use amsserver.Io.Buffer.{OperationType, accept_posted, recv_posted, send_posted, null_posted}

Safe-After : (o : Outcome (Bool × World)) → Safe Sound o → After o Sound
Safe-After (done (r, v)) s = s
Safe-After (crash e) s = tt

not_freed : (o : Outcome (Bool × World)) → Safe Sound o → o ≢ crash use_after_free
not_freed (done (r, v)) s e = cc
not_freed (crash f) s e = s cc

worker_round-failed :
    (sizes : Bytes → ℕ) (a : Answers) (c : Completion) (v : World)
    → c.ok ≡ false
    → worker_round (http_do_recv sizes) a c v ≡ done (true, v)
unfolding worker_round
worker_round-failed sizes a c v e = rw e refl

module _ (sizes : Bytes → ℕ) (a : Answers) (c : Completion) (w : World) (op : Pending)
    (before after : List Pending) (bytes : Bytes) (s : Sound w)
    (e : w.pending ≡ before ++ op ∷ after) (k : c.key ≡ op.key) (p : c.io ≡ op.io) where
  held-Safe :
      (o : OperationType)
      → op.kind ≢ send_posted
      → o ≢ send_posted
      → Owns o w op.io
      → Safe Sound (
          worker_round
            (http_do_recv sizes)
            a
            c
            (store_received o op.io bytes (without before after w)))
  held-Safe o n m r =
      worker_round-Safe sizes a o c (store_received o op.io bytes (without before after w))
        (rw (k, p) (taken-Ready w op before after bytes s e o n m r))

  sent_freed :
      op.kind ≡ send_posted
      → Owns send_posted w op.io
      → c.ok ≡ true
      → worker_round (http_do_recv sizes) a c (without before after w) ≡ crash use_after_free
  sent_freed n (l, f) o =
      let b = IsBacked-taken w op before after s e in
      worker_round-freed sizes a c (without before after w) o (rw k b.0) (rw p b.1) (rw p f)

  round_on-Sound :
      (o : OperationType)
      → op.kind ≡ o
      → Owns o w op.io
      → After
          (worker_round
            (http_do_recv sizes)
            a
            c
            (store_received o op.io bytes (without before after w)))
          Sound
  round_on-Sound accept_posted n r = Safe-After _ (held-Safe accept_posted (λ m. cc) (λ m. cc) r)
  round_on-Sound recv_posted n r = Safe-After _ (held-Safe recv_posted (λ m. cc) (λ m. cc) r)
  round_on-Sound send_posted n r = elim (Bool-cases c.ok) [
    | inl o ↦ rw (sent_freed n r o) tt
    | inr o ↦
        rw (worker_round-failed sizes a c (without before after w) o)
          (Sound-without w op before after s e)
  ]
  round_on-Sound null_posted n r = absurd r

  round_on-faults :
      (o : OperationType)
      → op.kind ≡ o
      → Owns o w op.io
      → (worker_round
            (http_do_recv sizes)
            a
            c
            (store_received o op.io bytes (without before after w))
          ≡ crash use_after_free)
        ↔ ((o ≡ send_posted) × (c.ok ≡ true))
  round_on-faults accept_posted n r =
      (λ f. absurd (not_freed _ (held-Safe accept_posted (λ m. cc) (λ m. cc) r) f), λ (m, o). cc)
  round_on-faults recv_posted n r =
      (λ f. absurd (not_freed _ (held-Safe recv_posted (λ m. cc) (λ m. cc) r) f), λ (m, o). cc)
  round_on-faults send_posted n r = (
    λ f. elim (Bool-cases c.ok) [
      | inl o ↦ (refl, o)
      | inr o ↦ cc (f, worker_round-failed sizes a c (without before after w) o)
    ],
    λ (m, o). sent_freed n r o,
  )
  round_on-faults null_posted n r = absurd r

  -- The round of a worker on a completion accesses a released object exactly if it is the completion of
  -- a send that has succeeded, whatever the system answers to the calls of the handler and whatever
  -- bytes it has received.
  pub completed_faults_iff :
      (worker_round (http_do_recv sizes) a c (taken op before after bytes w) ≡ crash use_after_free)
      ↔ ((op.kind ≡ send_posted) × (c.ok ≡ true))
  completed_faults_iff = round_on-faults op.kind refl (IsBacked-taken w op before after s e).3

  pub completed-Sound :
      After (worker_round (http_do_recv sizes) a c (taken op before after bytes w)) Sound
  completed-Sound = round_on-Sound op.kind refl (IsBacked-taken w op before after s e).3

-- The worlds that completions lead to. For each round the system takes some pending operation off,
-- with any bytes, succeeded or not, and answers the calls of the handler in any way.
pub data System (sizes : Bytes → ℕ) (w : World) : World → Type 0 where
  begin : (v : World) → v ≡ w → System sizes w v
  completed :
      {u v : World} (a : Answers) (c : Completion) (op : Pending) (before after : List Pending)
      (bytes : Bytes) (keeprunning : Bool)
      → System sizes w u
      → u.pending ≡ before ++ op ∷ after
      → c.key ≡ op.key
      → c.io ≡ op.io
      → worker_round (http_do_recv sizes) a c (taken op before after bytes u)
        ≡ done (keeprunning, v)
      → System sizes w v

-- Over any sequence of completions, from a world with the invariant, each pending accept and each pending
-- receive keeps a live io of its own, and each pending operation a live handle.
pub System-Sound : (sizes : Bytes → ℕ) (w v : World) → Sound w → System sizes w v → Sound v
System-Sound sizes w _ s (begin v e) = subst Sound (sym e) s
System-Sound sizes w v s (completed {u} a c op before after bytes r y e k p f) =
    subst (λ o. After o Sound) f
      (completed-Sound sizes a c u op before after bytes (System-Sound sizes w u s y) e k p)
