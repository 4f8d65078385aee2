-- ===== src/Server/Interleaved/Handles.antt =====
-- The handles, the mutex and the sockets.
use mathlib.Core.Path.{subst}
use amsserver.Base.{
  refl, ◌≡◌, if◌then◌else◌, ◌∷◌, none, some, true, false, suc, ℕ, Option, ◌==◌, ◌≢◌, arith, Bool,
  ap, ◌∙◌, sym, inr,
}
use amsserver.Server.Interleaved.Own.{Role, Own, Claim, Claims, Steady, After, AreKept, AreDistinct}
use amsserver.Server.Interleaved.Claims.{Claim-same}
use amsserver.Server.Interleaved.Calls.{After-refl}
use amsserver.Server.Interleaved.Kept.{AreKept-same}
use amsserver.Server.Interleaved.Rules.{Keeps, Tame, Keeps-call}
use amsserver.Server.Interleaved.Steps.{Steps, calls}
use amsserver.Server.Iocp.{close_socket}
use amsserver.Server.System.Sound.{some_of_ne}
use amsserver.Io.World.{
  World, update, new_socket_handle, store_handle, release_heap_protect_mutex, SocketHandle,
  new_handle,
}

abbrev pub learn : ℕ → Own → Own
learn q r = record r { knows = λ k. if q == k then true else r.knows k }

-- A step that leaves the ios and their operations.
module _ (w v : World) (n : v.next_io ≡ w.next_io) (i : v.ios ≡ w.ios) (p : v.pending ≡ w.pending)
    (handles : (k : ℕ) → w.handles k ≢ none → v.handles k ≢ none) where
  ios_stay : (x : Role) (q : ℕ) → Claim x q w → Claim x q v
  ios_stay x q c =
      Claim-same x q w v (omega (arith, n)) (ap (λ f. f q) i) (λ f. rw p f) (λ f. rw p f) c

  kept_stay : Steady w → v.next_handle ≢ 0 → v.listenhandle ≡ w.listenhandle → Steady v
  kept_stay s h l = record {
    next_io_given = omega (arith, s.next_io_given);
    next_handle_given = h;
    listener_given = omega (arith, s.listener_given);
    listener_there =
        subst (λ k. v.handles k ≢ none) (sym l) (handles w.listenhandle s.listener_there);
    kept = subst (AreKept v) (sym p) (AreKept-same w v w.pending (sym n) i handles s.kept);
    distinct = subst AreDistinct (sym p) s.distinct;
  }

  After-handles :
      (r : Own) (f : ℕ → Bool)
      → v.next_handle ≢ 0
      → v.listenhandle ≡ w.listenhandle
      → v.heap_locked ≡ w.heap_locked
      → ((k : ℕ) → f k ≡ true → v.handles k ≢ none)
      → Steady w
      → Claims r w
      → After r (record r { knows = f }) w v
  After-handles r f h l m known s c = record {
    steady = kept_stay s h l;
    claims = record {
      ios = λ q. ios_stay (r.role q) q (c.ios q);
      handles = known;
      mutex = λ e. m ∙ c.mutex e;
    };
    others = λ t g d. (
      record { ios = g.ios; mutex = g.mutex },
      record {
        ios = λ q. ios_stay (t.role q) q (d.ios q);
        handles = λ k e. handles k (d.handles k e);
        mutex = λ e. m ∙ d.mutex e;
      },
    );
    mutex = λ e. inr (sym m ∙ e, λ a. a);
  }

module _ {A : Type 0} (r : Own) (Q : A → Own → Type 0) where
  pub Keeps-new_handle :
      (k : ℕ → Steps A)
      → ((q : ℕ) → q ≢ 0 → Keeps Tame (learn q r) (k q) Q)
      → Keeps Tame r (calls new_socket_handle k) Q
  unfolding new_socket_handle Keeps
  Keeps-new_handle k h w s c =
      let v : World = record w {
        handles = update w.handles w.next_handle (some new_handle);
        next_handle = suc w.next_handle;
      } in
      Keeps-call Tame r (learn w.next_handle r) w v new_socket_handle k w.next_handle Q refl
        (After-handles w v refl refl refl (λ q i. ground (arith, i)) r _ (omega arith) refl refl
          (λ q e. ground (arith, e, c.handles q)) s c)
        (h w.next_handle s.next_handle_given)

  pub Keeps-store_handle :
      (q : ℕ) (g : SocketHandle) (k : Unit {0} → Steps A)
      → r.knows q ≡ true
      → Keeps Tame r (k tt) Q
      → Keeps Tame r (calls (store_handle q g) k) Q
  unfolding store_handle Keeps
  Keeps-store_handle q g k m h w s c =
      let (d, e) = some_of_ne (w.handles q) (c.handles q m) in
      let v : World = record w { handles = update w.handles q (some g) } in
      Keeps-call Tame r r w v (store_handle q g) k tt Q (ground (arith, e))
        (After-handles w v refl refl refl (λ q i. ground (arith, i)) r r.knows s.next_handle_given
          refl refl (λ p f. ground (arith, c.handles p f)) s c)
        h

  pub Keeps-close_socket :
      (o : Option ℕ) (k : Unit {0} → Steps A)
      → Keeps Tame r (k tt) Q
      → Keeps Tame r (calls (close_socket o) k) Q
  unfolding close_socket Keeps
  Keeps-close_socket none k h w s c =
      Keeps-call Tame r r w w (close_socket none) k tt Q refl (After-refl r w s c) h
  Keeps-close_socket (some l) k h w s c =
      let v : World = record w { closed = l ∷ w.closed } in
      Keeps-call Tame r r w v (close_socket (some l)) k tt Q refl
        (After-handles w v refl refl refl (λ q i. i) r r.knows s.next_handle_given refl refl
          c.handles s c)
        h

  -- The thread that has the mutex gives it back.
  pub Keeps-release :
      (k : Unit {0} → Steps A)
      → r.locks ≡ true
      → Keeps Tame (record r { locks = false }) (k tt) Q
      → Keeps Tame r (calls release_heap_protect_mutex k) Q
  unfolding Keeps
  Keeps-release k m h w s c =
      let v : World = record w { heap_locked = false } in
      Keeps-call Tame r (record r { locks = false }) w v release_heap_protect_mutex k tt Q refl
        (record {
          steady = kept_stay w v refl refl refl (λ q i. i) s s.next_handle_given refl;
          claims = record {
            ios = λ q. ios_stay w v refl refl refl (λ q i. i) (r.role q) q (c.ios q);
            handles = c.handles;
            mutex = λ e. cc;
          };
          others = λ t f d. (
            record { ios = f.ios; mutex = λ e. cc },
            record {
              ios = λ q. ios_stay w v refl refl refl (λ q i. i) (t.role q) q (d.ios q);
              handles = d.handles;
              mutex = λ e. absurd (f.mutex m e);
            },
          );
          mutex = λ e. cc;
        })
        h
