-- ===== src/Server/Interleaved/Completions.antt =====
-- The round that a thread begins with the completion of a pending operation.
use amsserver.Server.System.Safe.{with_io}
use amsserver.Server.Interleaved.Accepts.{Unlocked}
use amsserver.Server.Interleaved.Handlers.{worker_round_steps}
use mathlib.Core.Path.{subst}
use amsserver.Server.Interleaved.Rounds.{sent_round-Keeps, Allows, worker_round-Keeps}
use amsserver.Server.Interleaved.Rules.{Keeps, Tame}
use amsserver.Server.System.Sound.{some_of_ne}
use amsserver.Server.Interleaved.Takes.{
  After-sent, IsKept-taken, After-learn, After-held, After-trans,
}
use amsserver.Server.Interleaved.Handles.{learn}
use amsserver.Server.Interleaved.Calls.{After-refl, Claim-holds, After-store}
use amsserver.Server.System.Taken.{store_received, without, with_received}
use amsserver.Server.Worker.{Completion}
use amsserver.Io.World.{World, Answers, Pending}
use amsserver.Io.Buffer.{
  send_posted, recv_posted, null_posted, accept_posted, OperationType, receive,
}
use amsserver.Base.{
  refl, ◌≡◌, ◌∷◌, true, false, inl, Bytes, ℕ, List, ◌++◌, ◌≢◌, arith, ap, ◌∙◌, sym,
}
use amsserver.Server.Interleaved.Own.{Own, holds, looks, Steady, Claims, After}
use amsserver.Server.Interleaved.Claims.{assign, replace_self}

-- The bytes of a receive are stored in the io that the thread now holds.
After-received :
    (k : OperationType) (r : Own) (p : ℕ) (bytes : Bytes) (w : World)
    → r.role p ≡ holds
    → Steady w
    → Claims r w
    → (s : Own) × After r s w (store_received k p bytes w)
      × (s.role p ≡ holds)
      × (s.locks ≡ r.locks)
      × (s.knows ≡ r.knows)
After-received accept_posted r p bytes w h s c = (r, After-refl r w s c, h, refl, refl)
After-received send_posted r p bytes w h s c = (r, After-refl r w s c, h, refl, refl)
After-received null_posted r p bytes w h s c = (r, After-refl r w s c, h, refl, refl)
After-received recv_posted r p bytes w h s c =
    let (d, e) = some_of_ne (w.ios p) (Claim-holds (r.role p) p w (inl h) (c.ios p)).2 in
    (
      assign p holds r,
      subst (λ o. After r (assign p holds r) w (with_io p (with_received bytes o) w)) (sym e)
          (After-store r p holds (receive d bytes) w (inl h) (inl refl) s c),
      replace_self r.role p holds,
      refl,
      refl,
    )

-- What a thread may do with a completion that it has taken.
module _ (sizes : Bytes → ℕ) (a : Answers) (c : Completion) (op : Pending) (w : World)
    (before after : List Pending) (bytes : Bytes) (r : Own) (s : Steady w)
    (e : w.pending ≡ before ++ op ∷ after) (k : c.key ≡ op.key) (p : c.io ≡ op.io)
    (l : r.locks ≡ false) (m : Claims r w) where
  abbrev Begins : OperationType → Type 0
  Begins o =
      (t : Own) × After r t w (store_received o op.io bytes (without before after w))
      × Keeps (Allows o) t (worker_round_steps sizes a c) Unlocked

  known : (q : Own) → (learn op.key q).knows c.key ≡ true
  known q = ground (arith, k)

  begun_held :
      (o : OperationType)
      → op.kind ≢ send_posted
      → (t : Own) × After r t w (store_received o op.io bytes (without before after w))
        × Keeps Tame t (worker_round_steps sizes a c) Unlocked
  begun_held o n =
      let b = IsKept-taken w op before after s e in
      let x =
        After-learn r (assign op.io holds r) op.key w (without before after w) b.3
          (After-held w op before after s e r n m) in
      let q : Own = learn op.key (assign op.io holds r) in
      let (t, y, h, g, f) =
        After-received o q op.io bytes (without before after w) (replace_self r.role op.io holds)
          x.steady x.claims in
      (
        t,
        After-trans r q t w (without before after w) _ x y,
        worker_round-Keeps sizes a c t (ap t.role p ∙ h)
            (ap (λ u. u c.key) f ∙ known (assign op.io holds r)) (λ z. b.0 (sym k ∙ z)) (g ∙ l),
      )

  begun_on : (o : OperationType) → op.kind ≡ o → Begins o
  begun_on accept_posted f = begun_held accept_posted (λ g. cc)
  begun_on recv_posted f = begun_held recv_posted (λ g. cc)
  begun_on null_posted f = begun_held null_posted (λ g. cc)
  begun_on send_posted f = (
    assign op.io looks r,
    After-sent w op before after s e r f m,
    sent_round-Keeps sizes a c (assign op.io looks r)
        (ap (assign op.io looks r).role p ∙ replace_self r.role op.io looks) l,
  )

  pub begun : Begins op.kind
  begun = begun_on op.kind refl
