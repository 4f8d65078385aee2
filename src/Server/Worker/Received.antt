-- ===== src/Server/Worker/Received.antt =====
-- The case of `IOCPServer::WorkerThread` for a receive, for whatever bytes it has brought.
use amsserver.Server.HttpRecv.{http_do_recv}
use amsserver.Server.HttpRecv.Fatal.{Fatal, Treated, asked, refused, settled, Fatal-faults}
use amsserver.Server.Worker.{handle_recv}
use amsserver.Io.Buffer.{PerIoData}
use mathlib.Core.Path.{subst}
use amsserver.Io.World.{World, M, Answers, SocketHandle, load_handle}
use amsserver.Base.{
  ℕ, Bytes, Bool, Fault, ◌≡◌, ◌≢◌, true, false, done, crash, some, ◌⊎◌, Returns, Returns-done,
  Returns-eq, inl, inr, refl, arith,
}

module _ (do_recv : Answers → ℕ → ℕ → M Bool) (a : Answers) (k p : ℕ) (w v : World) where
  handle_recv-true : do_recv a k p w ≡ done (true, v) → handle_recv do_recv a k p w ≡ done (true, v)
  unfolding handle_recv
  handle_recv-true e = ground (arith, e)

  handle_recv-false :
      (h : SocketHandle)
      → k ≢ 0
      → v.handles k ≡ some h
      → do_recv a k p w ≡ done (false, v)
      → handle_recv do_recv a k p w ≡ done (true, v)
  unfolding handle_recv load_handle
  handle_recv-false h n t e = ground (arith, e, n, t)

  handle_recv-crash :
      (e : Fault) → do_recv a k p w ≡ crash e → handle_recv do_recv a k p w ≡ crash e
  unfolding handle_recv
  handle_recv-crash e f = ground (arith, f)

module _ (sizes : Bytes → ℕ) (a : Answers) (w : World) (k p : ℕ) (d : PerIoData) (h : SocketHandle)
    (hk : k ≢ 0) (hp : p ≢ 0) (live : w.ios p ≡ some d) (there : w.handles k ≡ some h)
    (hn : w.next_io ≢ 0) (fresh : p ≢ w.next_io) (recv_starts : a.wsa_recv ≡ true)
    (send_starts : a.wsa_send ≡ true) where
  -- The worker keeps running, whatever `DoRecv` returned.
  returned :
      Returns (http_do_recv sizes a k p w) (λ (r, v). Treated sizes d h k p w r v)
      → Returns
          (handle_recv (http_do_recv sizes) a k p w)
          (λ (b, v). (b ≡ true) × ((r : Bool) × Treated sizes d h k p w r v))
  returned r =
      let (x, e, t) =
        Returns-done (http_do_recv sizes a k p w) (λ (r, v). Treated sizes d h k p w r v) r in
      go x.0 x.1 e t
    where
      go :
          (r : Bool) (v : World)
          → http_do_recv sizes a k p w ≡ done (r, v)
          → Treated sizes d h k p w r v
          → Returns
              (handle_recv (http_do_recv sizes) a k p w)
              (λ (b, v). (b ≡ true) × ((r : Bool) × Treated sizes d h k p w r v))
      go r v e (asked t g q i n s u y f) =
          Returns-eq _ _ (true, v)
            (handle_recv-true (http_do_recv sizes) a k p w v
              (subst (λ b. http_do_recv sizes a k p w ≡ done (b, v)) y e))
            (refl, (r, asked t g q i n s u y f))
      go r v e (refused t i n s y f) =
          Returns-eq _ _ (true, v)
            (handle_recv-false (http_do_recv sizes) a k p w v h hk (rw f there)
              (subst (λ b. http_do_recv sizes a k p w ≡ done (b, v)) y e))
            (refl, (r, refused t i n s y f))

  -- On a live io, which is not the next new one, and a live handle, where the system starts the send and the
  -- new receive: either what was received is fatal, and the worker ends with the fault that is due; or the
  -- worker runs on, and what was received is a whole request that was treated as it is due. With GET its
  -- query has the effect of the protocol, and a new receive is posted. With no GET nothing is sent or posted,
  -- no new receive either, and the connection is not closed.
  pub handle_recv-Treated :
      ((e : Fault) × Fatal sizes d h e × (handle_recv (http_do_recv sizes) a k p w ≡ crash e))
      ⊎ Returns
          (handle_recv (http_do_recv sizes) a k p w)
          (λ (b, v). (b ≡ true) × ((r : Bool) × Treated sizes d h k p w r v))
  handle_recv-Treated =
      elim (settled sizes a w k p d h hk hp live there hn fresh recv_starts send_starts) [
        | inl (e, f) ↦ inl (
          e,
          f,
          handle_recv-crash (http_do_recv sizes) a k p w w e
              (Fatal-faults sizes a w k p d h hk hp live there e f),
        )
        | inr r ↦ inr (returned r)
      ]
