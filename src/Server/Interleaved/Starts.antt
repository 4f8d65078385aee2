-- ===== src/Server/Interleaved/Starts.antt =====
-- Starting an operation, and releasing an io.
use mathlib.Core.Path.{subst}
use amsserver.Io.Buffer.{
  send_posted, recv_posted, null_posted, accept_posted, OperationType, PerIoData, sent_bytes,
}
use amsserver.Base.{
  refl, ◌≡◌, ◌∷◌, none, true, inl, inr, arith, ℕ, ◌⊎◌, ◌≢◌, sym, List, Option, Bytes,
}
use amsserver.Server.Interleaved.Own.{
  Role, none_of, holds, sends, leaves, looks, Own, Shares, Claim, Claims, Steady, After, IsKept,
}
use amsserver.Server.Interleaved.Claims.{assign, Claim-same, After-at}
use amsserver.Server.Interleaved.Calls.{IsMine, near_alone, Claim-holds}
use amsserver.Server.Interleaved.Kept.{
  AreKept-same, AreKept-release, IsClear-IsFree, Steady-start, Steady-of,
}
use amsserver.Server.Interleaved.Rules.{Keeps, Tame, Keeps-call}
use amsserver.Server.Interleaved.Steps.{Steps, calls}
use amsserver.Server.Interleaved.Handlers.{start_accept, wsa_send}
use amsserver.Server.System.Safe.{with_io}
use amsserver.Server.System.Sound.{some_of_ne, with_operation}
use amsserver.Server.System.Owned.{Spares, IsFree}
use amsserver.Io.World.{World, Pending, start_operation, delete_io, SocketHandle}

Spares-ne : (k : OperationType) (p q : ℕ) → p ≢ q → Spares k p q
Spares-ne accept_posted p q n = λ e. n (sym e)
Spares-ne recv_posted p q n = λ e. n (sym e)
Spares-ne send_posted p q n = tt
Spares-ne null_posted p q n = λ e. n (sym e)

-- An accept or a receive takes the io away from its thread.
After-start :
    (r : Own) (op : Pending) (w : World)
    → IsMine (r.role op.io)
    → IsKept w op
    → Steady w
    → Claims r w
    → After r (assign op.io none_of r) w (with_operation op w)
After-start r op w m k s h =
    let g = Claim-holds (r.role op.io) op.io w m (h.ios op.io) in
    After-at r w (with_operation op w) op.io none_of (Steady-start op w s k g.3) tt
      (λ y p n c.
        Claim-same y p w (with_operation op w) (omega arith) refl (λ f. (λ e. n (sym e), f))
          (λ f. (Spares-ne op.kind p op.io n, f)) c)
      (λ y i c. near_alone (r.role op.io) none_of y op.io (with_operation op w) m i) (λ q i. i) refl
      h

-- A send leaves it the release.
After-send :
    (r : Own) (q c : ℕ) (l : List (Option ℕ × Bytes)) (w : World)
    → r.role c ≡ sends
    → r.knows q ≡ true
    → q ≢ 0
    → Steady w
    → Claims r w
    → After r
        (assign c leaves r)
        w
        (with_operation (record { key = q; io = c; kind = send_posted }) (record w { sent = l }))
After-send r q c l w m t n s h =
    let op : Pending = record { key = q; io = c; kind = send_posted } in
    let v : World = record w { sent = l } in
    let g : Claim sends c w = subst (λ y. Claim y c w) m (h.ios c) in
    After-at r w (with_operation op v) c leaves
      (Steady-start op v
        (Steady-of w v refl refl refl refl s.listener_there
          (AreKept-same w v w.pending refl refl (λ k i. i) s.kept) s)
        (n, g.0, g.1, h.handles q t, g.4) g.3)
      (g.0, g.1, g.2, (tt, IsClear-IsFree c w.pending g.3), g.4)
      (λ y p d k.
        Claim-same y p w (with_operation op v) (omega arith) refl (λ f. (λ e. d (sym e), f))
          (λ f. (tt, f)) k)
      (λ y i k. near_alone (r.role c) leaves y c (with_operation op v) (inr m) i) (λ k i. i) refl h

-- An io that its thread may release.
abbrev pub IsDue : Role → Type 0
IsDue x = (x ≡ holds) ⊎ (x ≡ leaves)

Claim-due :
    (x : Role) (c : ℕ) (w : World) → IsDue x → Claim x c w → (w.ios c ≢ none) × IsFree c w.pending
Claim-due none_of c w (inl e) k = cc
Claim-due none_of c w (inr e) k = cc
Claim-due holds c w m k = (k.2, IsClear-IsFree c w.pending k.3)
Claim-due sends c w (inl e) k = cc
Claim-due sends c w (inr e) k = cc
Claim-due leaves c w m k = (k.2, k.3)
Claim-due looks c w (inl e) k = cc
Claim-due looks c w (inr e) k = cc

-- Another thread may look at an io that is due.
near_due :
    (z y : Role) (c : ℕ) (w : World)
    → IsDue z
    → Shares z y
    → Claim y c w
    → Claim y c (with_io c none w)
near_due z none_of c w m s k = tt
near_due z looks c w m s (l, f, b) = (l, f, ground arith)
near_due z holds c w (inl e) s k = absurd (subst (λ y. Shares y holds) e s)
near_due z holds c w (inr e) s k = absurd (subst (λ y. Shares y holds) e s)
near_due z sends c w (inl e) s k = absurd (subst (λ y. Shares y sends) e s)
near_due z sends c w (inr e) s k = absurd (subst (λ y. Shares y sends) e s)
near_due z leaves c w (inl e) s k = absurd (subst (λ y. Shares y leaves) e s)
near_due z leaves c w (inr e) s k = absurd (subst (λ y. Shares y leaves) e s)

After-delete :
    (r : Own) (c : ℕ) (w : World)
    → IsDue (r.role c)
    → Steady w
    → Claims r w
    → After r (assign c none_of r) w (with_io c none w)
After-delete r c w m s h =
    let (t, f) = Claim-due (r.role c) c w m (h.ios c) in
    After-at r w (with_io c none w) c none_of
      (Steady-of w (with_io c none w) refl refl refl refl s.listener_there
        (AreKept-release w c w.pending f s.kept) s)
      tt
      (λ y p n k.
        Claim-same y p w (with_io c none w) (omega arith) (ground (arith, n)) (λ f. f) (λ f. f) k)
      (λ y i k. (tt, near_due (r.role c) y c w m i k)) (λ k i. i) refl h

module _ {A : Type 0} (r : Own) (Q : A → Own → Type 0) where
  pub Keeps-start_recv :
      (q c : ℕ) (k : Unit {0} → Steps A)
      → IsMine (r.role c)
      → r.knows q ≡ true
      → q ≢ 0
      → Keeps Tame (assign c none_of r) (k tt) Q
      → Keeps Tame r (calls (start_operation (record { key = q; io = c; kind = recv_posted })) k) Q
  unfolding start_operation Keeps
  Keeps-start_recv q c k m t n h w s i =
      let op : Pending = record { key = q; io = c; kind = recv_posted } in
      let g = Claim-holds (r.role c) c w m (i.ios c) in
      Keeps-call Tame r (assign c none_of r) w (with_operation op w) (start_operation op) k tt Q
        refl (After-start r op w m (n, g.0, g.1, i.handles q t, g.2) s i) h

  pub Keeps-start_accept :
      (c : ℕ) (k : Unit {0} → Steps A)
      → IsMine (r.role c)
      → Keeps Tame (assign c none_of r) (k tt) Q
      → Keeps Tame r (calls (start_accept c) k) Q
  unfolding start_accept start_operation Keeps
  Keeps-start_accept c k m h w s i =
      let op : Pending = record { key = w.listenhandle; io = c; kind = accept_posted } in
      let g = Claim-holds (r.role c) c w m (i.ios c) in
      Keeps-call Tame r (assign c none_of r) w (with_operation op w) (start_accept c) k tt Q refl
        (After-start r op w m (s.listener_given, g.0, g.1, s.listener_there, g.2) s i) h

  pub Keeps-wsa_send :
      (g : SocketHandle) (d : PerIoData) (q c : ℕ) (k : Unit {0} → Steps A)
      → r.role c ≡ sends
      → r.knows q ≡ true
      → q ≢ 0
      → Keeps Tame (assign c leaves r) (k tt) Q
      → Keeps Tame r (calls (wsa_send g d q c) k) Q
  unfolding wsa_send start_operation Keeps
  Keeps-wsa_send g d q c k m t n h w s i =
      Keeps-call Tame r (assign c leaves r) w
        (with_operation (record { key = q; io = c; kind = send_posted })
          (record w { sent = (g.ssocket, sent_bytes d) ∷ w.sent }))
        (wsa_send g d q c) k tt Q refl
        (After-send r q c ((g.ssocket, sent_bytes d) ∷ w.sent) w m t n s i) h

  pub Keeps-delete :
      (c : ℕ) (k : Unit {0} → Steps A)
      → IsDue (r.role c)
      → Keeps Tame (assign c none_of r) (k tt) Q
      → Keeps Tame r (calls (delete_io c) k) Q
  unfolding delete_io Keeps
  Keeps-delete c k m h w s i =
      let (d, e) = some_of_ne (w.ios c) (Claim-due (r.role c) c w m (i.ios c)).0 in
      Keeps-call Tame r (assign c none_of r) w (with_io c none w) (delete_io c) k tt Q
        (ground (arith, e)) (After-delete r c w m s i) h
