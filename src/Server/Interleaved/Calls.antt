-- ===== src/Server/Interleaved/Calls.antt =====
-- What each call needs and leaves.
use amsserver.Server.System.Owned.{with_new_io}
use mathlib.Core.Path.{subst}
use amsserver.Io.Buffer.{PerIoData, send_posted}
use amsserver.Base.{
  refl, ◌≡◌, inl, inr, ◌⊎◌, ℕ, ◌≢◌, arith, some, true, Option, sym, none, done, crash,
  use_after_free, false,
}
use amsserver.Server.Interleaved.Own.{
  Role, none_of, holds, sends, leaves, looks, Own, Shares, IsClear, Claim, Claims, Steady, After,
  IsSend,
}
use amsserver.Server.Interleaved.Claims.{assign, alone, Shares-none, Claim-same, After-at}
use amsserver.Server.Interleaved.Kept.{AreKept-new, AreKept-clear, IsClear-new, Steady-of}
use amsserver.Server.Interleaved.Rules.{Keeps, Tame, Keeps-call}
use amsserver.Server.Interleaved.Steps.{Steps, calls}
use amsserver.Server.System.Safe.{with_io}
use amsserver.Server.System.Sound.{some_of_ne}
use amsserver.Io.World.{
  World, load, store, load_handle, get_new_io_data, SocketHandle, lift, or_fault,
}

abbrev pub IsMine : Role → Type 0
IsMine x = (x ≡ holds) ⊎ (x ≡ sends)

pub Claim-holds : (x : Role) (p : ℕ) (w : World) → IsMine x → Claim x p w → Claim holds p w
Claim-holds none_of p w (inl e) c = cc
Claim-holds none_of p w (inr e) c = cc
Claim-holds holds p w m c = c
Claim-holds sends p w m c = (c.0, c.1, c.2, c.3)
Claim-holds leaves p w (inl e) c = cc
Claim-holds leaves p w (inr e) c = cc
Claim-holds looks p w (inl e) c = cc
Claim-holds looks p w (inr e) c = cc

pub After-refl : (r : Own) (w : World) → Steady w → Claims r w → After r r w w
After-refl r w s c = record {
  steady = s;
  claims = c;
  others = λ t f h. (f, h);
  mutex = λ e. inr (e, λ a. a);
}

-- No other thread has a role on an io that is mine.
pub near_alone :
    (z x y : Role) (c : ℕ) (v : World) → IsMine z → Shares z y → Shares x y × Claim y c v
near_alone z x y c v m s =
    subst (λ y. Shares x y × Claim y c v) (sym (alone z y m s)) (Shares-none x, tt)

pub Steady-clear :
    (c : ℕ) (o : Option PerIoData) (w : World)
    → Steady w
    → IsClear c w.pending
    → Steady (with_io c o w)
Steady-clear c o w s f =
    Steady-of w (with_io c o w) refl refl refl refl s.listener_there
      (AreKept-clear w c o w.pending f s.kept) s

-- The claim on an io that was written.
Claim-written :
    (x : Role) (c : ℕ) (d : PerIoData) (w : World)
    → (x ≡ holds) ⊎ ((x ≡ sends) × (d.operationtype ≡ send_posted))
    → Claim holds c w
    → Claim x c (with_io c (some d) w)
Claim-written x c d w (inl e) (a, l, t, f) =
    subst (λ y. Claim y c (with_io c (some d) w)) (sym e) (a, l, ground arith, f)
Claim-written x c d w (inr (e, o)) (a, l, t, f) =
    subst (λ y. Claim y c (with_io c (some d) w)) (sym e) (a, l, ground arith, f, ground (arith, o))

pub After-store :
    (r : Own) (c : ℕ) (x : Role) (d : PerIoData) (w : World)
    → IsMine (r.role c)
    → (x ≡ holds) ⊎ ((x ≡ sends) × (d.operationtype ≡ send_posted))
    → Steady w
    → Claims r w
    → After r (assign c x r) w (with_io c (some d) w)
After-store r c x d w m o s h =
    let g = Claim-holds (r.role c) c w m (h.ios c) in
    After-at r w (with_io c (some d) w) c x (Steady-clear c (some d) w s g.3)
      (Claim-written x c d w o g)
      (λ y p n k.
        Claim-same y p w (with_io c (some d) w) (omega arith) (ground (arith, n)) (λ f. f) (λ f. f)
          k)
      (λ y i k. near_alone (r.role c) x y c (with_io c (some d) w) m i) (λ k i. i) refl h

-- No thread has a role on an io that is not made yet.
unmade : (x : Role) (w : World) → Claim x w.next_io w → x ≡ none_of
unmade none_of w c = refl
unmade holds w c = absurd (omega (arith, c.1))
unmade sends w c = absurd (omega (arith, c.1))
unmade leaves w c = absurd (omega (arith, c.1))
unmade looks w c = absurd (omega (arith, c.0))

pub After-new :
    (r : Own) (w : World)
    → Steady w
    → Claims r w
    → After r (assign w.next_io holds r) w (with_new_io w)
After-new r w s h =
    After-at r w (with_new_io w) w.next_io holds
      (record {
        next_io_given = omega arith;
        next_handle_given = s.next_handle_given;
        listener_given = s.listener_given;
        listener_there = s.listener_there;
        kept = AreKept-new w w.pending s.kept;
        distinct = s.distinct;
      })
      (s.next_io_given, omega arith, ground arith, IsClear-new w w.pending s.kept)
      (λ y p n k.
        Claim-same y p w (with_new_io w) (omega arith) (ground (arith, n)) (λ f. f) (λ f. f) k)
      (λ y i k.
        subst (λ y. Shares holds y × Claim y w.next_io (with_new_io w)) (sym (unmade y w k))
          (tt, tt))
      (λ k i. i) refl h

module _ {A : Type 0} (r : Own) (Q : A → Own → Type 0) where
  pub Keeps-load :
      (p : ℕ) (k : PerIoData → Steps A)
      → IsMine (r.role p)
      → ((d : PerIoData) → Keeps Tame r (k d) Q)
      → Keeps Tame r (calls (load p) k) Q
  unfolding load Keeps
  Keeps-load p k m h w s c =
      let (d, e) = some_of_ne (w.ios p) (Claim-holds (r.role p) p w m (c.ios p)).2 in
      Keeps-call Tame r r w w (load p) k d Q (ground (arith, e)) (After-refl r w s c) (h d)

  -- `x` is what the io is then.
  Keeps-store :
      (c : ℕ) (x : Role) (d : PerIoData) (k : Unit {0} → Steps A)
      → IsMine (r.role c)
      → (x ≡ holds) ⊎ ((x ≡ sends) × (d.operationtype ≡ send_posted))
      → Keeps Tame (assign c x r) (k tt) Q
      → Keeps Tame r (calls (store c d) k) Q
  unfolding store Keeps
  Keeps-store c x d k m o h w s i =
      let (e, f) = some_of_ne (w.ios c) (Claim-holds (r.role c) c w m (i.ios c)).2 in
      Keeps-call Tame r (assign c x r) w (with_io c (some d) w) (store c d) k tt Q
        (ground (arith, f)) (After-store r c x d w m o s i) h

  pub Keeps-store_held :
      (c : ℕ) (d : PerIoData) (k : Unit {0} → Steps A)
      → IsMine (r.role c)
      → Keeps Tame (assign c holds r) (k tt) Q
      → Keeps Tame r (calls (store c d) k) Q
  Keeps-store_held c d k m h = Keeps-store c holds d k m (inl refl) h

  pub Keeps-store_send :
      (c : ℕ) (d : PerIoData) (k : Unit {0} → Steps A)
      → IsMine (r.role c)
      → d.operationtype ≡ send_posted
      → Keeps Tame (assign c sends r) (k tt) Q
      → Keeps Tame r (calls (store c d) k) Q
  Keeps-store_send c d k m o h = Keeps-store c sends d k m (inr (refl, o)) h

  pub Keeps-load_handle :
      (q : ℕ) (k : SocketHandle → Steps A)
      → r.knows q ≡ true
      → ((h : SocketHandle) → Keeps Tame r (k h) Q)
      → Keeps Tame r (calls (load_handle q) k) Q
  unfolding load_handle Keeps
  Keeps-load_handle q k m h w s c =
      let (d, e) = some_of_ne (w.handles q) (c.handles q m) in
      Keeps-call Tame r r w w (load_handle q) k d Q (ground (arith, e)) (After-refl r w s c) (h d)

  -- The new io is no one's.
  pub Keeps-new :
      (k : ℕ → Steps A)
      → ((q : ℕ) → q ≢ 0 → r.role q ≡ none_of → Keeps Tame (assign q holds r) (k q) Q)
      → Keeps Tame r (calls get_new_io_data k) Q
  unfolding get_new_io_data Keeps
  Keeps-new k h w s c =
      Keeps-call Tame r (assign w.next_io holds r) w (with_new_io w) get_new_io_data k w.next_io Q
        refl (After-new r w s c)
        (h w.next_io s.next_io_given (unmade (r.role w.next_io) w (c.ios w.next_io)))

  -- The io of a completed send may be released.
  pub Keeps-look :
      (p : ℕ) (k : PerIoData → Steps A)
      → r.role p ≡ looks
      → r.locks ≡ false
      → ((d : PerIoData) → d.operationtype ≡ send_posted → Keeps (λ e. Unit {0}) r (k d) Q)
      → Keeps (λ e. Unit {0}) r (calls (load p) k) Q
  unfolding load Keeps
  Keeps-look p k m l h w s c = seen (w.ios p) (subst (λ x. Claim x p w) m (c.ios p)).2
    where
      seen :
          (o : Option PerIoData)
          → IsSend o
          → elim (lift (or_fault use_after_free o) w) as (λ _. Type 0) [
            | done (d, v) ↦ (s : Own) × After r s w v × Keeps (λ e. Unit {0}) s (k d) Q
            | crash e ↦ Unit {0} × (r.locks ≡ false)
          ]
      seen none e = (tt, l)
      seen (some d) e = (r, After-refl r w s c, h d e)
