-- ===== src/Server/System/Rounds.antt =====
-- A round of a worker on the completion of a pending operation.
use amsserver.Server.Iocp.{do_accept_ex}
use amsserver.Base.{
  refl, ◌≡◌, ◌∷◌, none, some, done, crash, List, ℕ, Outcome, Bytes, ◌≢◌, ◌++◌, not, arith, ◌==◌,
  ◌&&◌,
}
use amsserver.Server.System.Taken.{
  without, store_received, IsBacked-taken, Sound-without, Held-taken,
}
use amsserver.Server.System.Owned.{Owns}
use amsserver.Server.System.Safe.{Safe, Safe-bind, Safe-if, Safe-load, Safe-load_handle}
use amsserver.Server.System.Sound.{Sound, Held, Since-store, some_of_ne}
use amsserver.Server.System.Accepts.{do_accept_ex-Safe}
use amsserver.Server.System.Receives.{http_do_recv-Safe}
use amsserver.Server.Worker.{worker_round, dispatch, handle_recv, Completion, is_recv_or_send}
use amsserver.Server.Worker.Kept.{Kept, After}
use amsserver.Server.Worker.Handlers.{http_do_recv-Keeps}
use amsserver.Server.HttpRecv.{http_do_recv}
use amsserver.Io.World.{World, Pending, Answers}
use amsserver.Io.Buffer.{
  OperationType, accept_posted, recv_posted, send_posted, null_posted, PerIoData, receive,
}

-- The system takes the operation between `before` and `after` off, with the bytes that it received.
abbrev pub taken : Pending → List Pending → List Pending → Bytes → World → World
taken op before after bytes w = store_received op.kind op.io bytes (without before after w)

-- A worker finds the io of the operation, and holds it.
pub record Ready (o : OperationType) (k p : ℕ) (v : World) : Type 0 where
  sound : Sound v
  held : Held p v
  handle_given : k ≢ 0
  handle_there : v.handles k ≢ none
  data_there : (d : PerIoData) × (v.ios p ≡ some d) × (d.operationtype ≡ o)

module _ (w : World) (op : Pending) (before after : List Pending) (bytes : Bytes) (s : Sound w)
    (e : w.pending ≡ before ++ op ∷ after) where
  pub taken-Ready :
      (o : OperationType)
      → op.kind ≢ send_posted
      → o ≢ send_posted
      → Owns o w op.io
      → Ready o op.key op.io (store_received o op.io bytes (without before after w))
  unfolding receive
  taken-Ready accept_posted n m (l, (d, f, g)) = record {
    sound = Sound-without w op before after s e;
    held = Held-taken w op before after s e d n l f;
    handle_given = (IsBacked-taken w op before after s e).0;
    handle_there = (IsBacked-taken w op before after s e).2;
    data_there = (d, f, g);
  }
  taken-Ready recv_posted n m (l, (d, f, g)) =
      let v : World = without before after w in
      let (x, h) =
        Since-store op.io (receive d bytes) v (Sound-without w op before after s e)
          (Held-taken w op before after s e d n l f) in
      rw f (record {
        sound = x.sound;
        held = h;
        handle_given = (IsBacked-taken w op before after s e).0;
        handle_there = (IsBacked-taken w op before after s e).2;
        data_there = (receive d bytes, ground arith, g);
      })
  taken-Ready send_posted n m r = absurd (m refl)
  taken-Ready null_posted n m r = absurd r

Safe-and :
    {A : Type 0} (P Q : World → Type 0) (o : Outcome (A × World))
    → Safe P o
    → After o Q
    → Safe (λ v. P v × Q v) o
Safe-and P Q (done (x, v)) p q = (p, q)
Safe-and P Q (crash e) p q = p

module _ (sizes : Bytes → ℕ) (a : Answers) where
  handle_recv-Safe :
      (k p : ℕ) (v : World)
      → Ready recv_posted k p v
      → Safe Sound (handle_recv (http_do_recv sizes) a k p v)
  unfolding handle_recv
  handle_recv-Safe k p v r =
      Safe-bind (λ u. Sound u × Kept a v u) Sound (http_do_recv sizes a k p) _ v
        (Safe-and Sound (Kept a v) (http_do_recv sizes a k p v)
          (http_do_recv-Safe sizes a k p v r.sound r.held r.handle_given r.handle_there)
          (http_do_recv-Keeps a sizes k p v))
        λ x u (s, q).
          let (h, f) = some_of_ne (u.handles k) (q.handles_stay k r.handle_there) in
          Safe-if Sound x _ _ u s (Safe-load_handle Sound k _ u h f s)

  dispatch-Safe :
      (o : OperationType) (k p : ℕ) (v : World)
      → Ready o k p v
      → Safe Sound (dispatch (http_do_recv sizes) a k p o v)
  unfolding dispatch
  dispatch-Safe accept_posted k p v r =
      Safe-bind Sound Sound (do_accept_ex a p) _ v (do_accept_ex-Safe a p v r.sound r.held)
        (λ x u s. s)
  dispatch-Safe recv_posted k p v r = handle_recv-Safe k p v r
  dispatch-Safe send_posted k p v r = r.sound
  dispatch-Safe null_posted k p v r = r.sound

  pub worker_round-Safe :
      (o : OperationType) (c : Completion) (v : World)
      → Ready o c.key c.io v
      → Safe Sound (worker_round (http_do_recv sizes) a c v)
  unfolding worker_round
  worker_round-Safe o c v r =
      let (d, f, g) = r.data_there in
      Safe-if Sound (not c.ok) _ _ v r.sound (
        Safe-if Sound (c.key == 0) _ _ v r.sound (
          Safe-if Sound (c.io == 0) _ _ v r.sound (
            Safe-load Sound c.io _ v d f (
              Safe-if Sound (c.bytes == 0 && is_recv_or_send d.operationtype) _ _ v r.sound
                (rw g (dispatch-Safe o c.key c.io v r))))))
