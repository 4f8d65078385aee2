-- ===== src/Server/Interleaved/Started.antt =====
-- `Start` leaves a world in which the threads may begin.
use amsserver.Server.Interleaved.Handlers.{post_accept_ex_steps}
use amsserver.Server.Interleaved.Does.Posts.{Does-post_accept_ex}
use mathlib.Core.Path.{subst}
use amsserver.Server.Interleaved.Steps.{locked}
use amsserver.Server.Interleaved.Calls.{After-new}
use amsserver.Server.Interleaved.Moves.{nothing, After-wait, nothing-Claims}
use amsserver.Server.System.Sound.{some_of_ne, Sound}
use amsserver.Server.Interleaved.Claims.{assign, replace_self}
use amsserver.Server.System.Owned.{with_new_io}
use amsserver.Server.Interleaved.Posts.{Still, post_accept_ex-Keeps}
use amsserver.Server.Interleaved.Kept.{Steady-of, AreKept-same}
use amsserver.Server.System.Safe.{Safe}
use amsserver.Server.Interleaved.Rules.{Keeps, Tame}
use amsserver.Server.Lifecycle.{StartAnswers, IocpServer, start_server}
use amsserver.Server.Iocp.{close_socket, post_accept_ex}
use amsserver.Server.Interleaved.Own.{Own, Steady, Claims, After, holds}
use amsserver.Io.World.{World, Answers, store_handle, SocketHandle, update}
use amsserver.Server.Interleaved.Steps.{run, Steps, gives, breaks, waits, calls}
use amsserver.Base.{
  refl, ◌≡◌, ◌∷◌, none, some, true, false, inl, inr, done, crash, Fault, Bool, Outcome, ℕ, Option,
  ◌≢◌, ◌∙◌, arith, sym,
}
use amsserver.Server.System.Starts.{start_server-keeps, start_server-Safe}

-- A run that no other thread interrupts ends with what its thread then owns.
abbrev EndsWith :
    {A : Type 0} → (Fault → Type 0) → (A → Own → Type 0) → Outcome (A × World) → Type 0
EndsWith F Q (done (x, v)) =
    (s : Own) × Steady v × Claims s v × (v.heap_locked ≡ true → s.locks ≡ true) × Q x s
EndsWith F Q (crash e) = F e

-- The mutex is taken by this thread only.
call_then :
    {A B : Type 0} (F : Fault → Type 0) (r : Own) (w : World) (o : Outcome (B × World))
    (k : B → Steps A) (Q : A → Own → Type 0)
    → ((b : B) (s : Own) (v : World)
        → Keeps F s (k b) Q
        → Steady v
        → Claims s v
        → (v.heap_locked ≡ true → s.locks ≡ true)
        → EndsWith F Q (run (k b) v))
    → (w.heap_locked ≡ true → r.locks ≡ true)
    → elim o as (λ _. Type 0) [
      | done (b, v) ↦ (s : Own) × After r s w v × Keeps F s (k b) Q
      | crash e ↦ F e × (r.locks ≡ false)
    ]
    → EndsWith F Q (elim o [ done (b, v) ↦ run (k b) v | crash e ↦ crash e ])
call_then F r w (done (b, v)) k Q h l (s, a, q) =
    h b s v q a.steady a.claims λ e. elim (a.mutex e) [ inl m ↦ m | inr (f, g) ↦ g (l f) ]
call_then F r w (crash e) k Q h l f = f.0

-- A mutex that only this thread may have is free if it does not have it.
not_taken : (b c : Bool) → (b ≡ true → c ≡ true) → c ≡ false → b ≡ false
not_taken true true l f = f
not_taken true false l f = sym (l refl)
not_taken false c l f = refl

run-Keeps :
    {A : Type 0} (F : Fault → Type 0) (r : Own) (p : Steps A) (Q : A → Own → Type 0) (w : World)
    → Keeps F r p Q
    → Steady w
    → Claims r w
    → (w.heap_locked ≡ true → r.locks ≡ true)
    → EndsWith F Q (run p w)
unfolding run Keeps
run-Keeps F r (gives x) Q w q s c l = (r, s, c, l, q)
run-Keeps F r (breaks e) Q w q s c l = q.0
run-Keeps F r (waits k) Q w (f, q) s c l =
    let a = After-wait r w (not_taken w.heap_locked r.locks l f) s c in
    run-Keeps F (record r { locks = true }) k Q (locked w) q a.steady a.claims (λ e. refl)
run-Keeps F r (calls m k) Q w q s c l =
    call_then F r w (m w) k Q (λ b t v i d e n. run-Keeps F t (k b) Q v i d e n) l (q w s c)

-- The threads may begin.
abbrev pub IsReady : World → Type 0
IsReady w = Steady w × (w.heap_locked ≡ false)

IsReady-of :
    (r : Own) (c : ℕ) (o : Outcome (Unit {0} × World))
    → r.locks ≡ false
    → EndsWith Tame (λ x s. Still c r s) o
    → Safe IsReady o
IsReady-of r c (done (x, v)) f (s, d, i, l, t) =
    (d, not_taken v.heap_locked s.locks l (t.locks ∙ f))
IsReady-of r c (crash e) f t = t

posts-Safe :
    (a : Answers) (w : World)
    → IsReady w
    → Safe IsReady (post_accept_ex a w.next_io (with_new_io w))
posts-Safe a w (s, f) =
    let r : Own = assign w.next_io holds nothing in
    let x = After-new nothing w s (nothing-Claims w) in
    subst (Safe IsReady) (Does-post_accept_ex a w.next_io (with_new_io w)) (
      IsReady-of r w.next_io _ refl (
        run-Keeps Tame r (post_accept_ex_steps a w.next_io) (λ x s. Still w.next_io r s)
          (with_new_io w)
          (post_accept_ex-Keeps a w.next_io r (replace_self nothing.role w.next_io holds)) x.steady
          x.claims (λ e. absurd (not_both e))))
  where
    not_both : w.heap_locked ≡ true → ⊥
    not_both e = cc

closes-Safe : (o : Option ℕ) (w : World) → IsReady w → Safe IsReady (close_socket o w)
unfolding close_socket
closes-Safe none w s = s
closes-Safe (some l) w (s, f) = (
  Steady-of w (record w { closed = l ∷ w.closed }) refl refl refl refl s.listener_there
      (AreKept-same w (record w { closed = l ∷ w.closed }) w.pending refl refl (λ k h. h) s.kept) s,
  f,
)

stores-Safe :
    (h : SocketHandle) (w : World) → IsReady w → Safe IsReady (store_handle w.listenhandle h w)
unfolding store_handle
stores-Safe h w (s, f) =
    let (g, e) = some_of_ne (w.handles w.listenhandle) s.listener_there in
    rw (e, Safe) (stored s, f)
  where
    v : World
    v = record w { handles = update w.handles w.listenhandle (some h) }

    stay : (k : ℕ) → w.handles k ≢ none → v.handles k ≢ none
    stay k n = ground (arith, n)

    stored : Steady w → Steady v
    stored s =
        Steady-of w v refl refl refl refl (stay w.listenhandle s.listener_there)
          (AreKept-same w v w.pending refl refl stay s.kept) s

Safe-both :
    {A : Type 0} (P Q : World → Type 0) (o : Outcome (A × World))
    → Safe P o
    → Safe Q o
    → Safe (λ v. P v × Q v) o
Safe-both P Q (done (x, v)) p q = (p, q)
Safe-both P Q (crash e) p q = p

-- `Start` on a world with the invariant of the server and that of the threads, in which the mutex is free,
-- accesses no released object and, where it returns, leaves both invariants and the mutex free, whichever
-- calls the system refuses.
pub start_server-IsReady :
    (a : StartAnswers) (s : IocpServer) (w : World)
    → Sound w
    → IsReady w
    → Safe (λ v. Sound v × IsReady v) (start_server a s w)
start_server-IsReady a s w h r =
    Safe-both Sound IsReady (start_server a s w) (start_server-Safe a s w h) (
      start_server-keeps IsReady closes-Safe stores-Safe (λ w s. s.0.listener_there) posts-Safe a s
        w r)
