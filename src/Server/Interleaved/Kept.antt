-- ===== src/Server/Interleaved/Kept.antt =====
-- What each change of the world keeps of the pending operations.
use mathlib.Core.Path.{subst}
use native.Mathlib.Decide.{ℕ_discrete}
use amsserver.Io.Buffer.{
  send_posted, null_posted, accept_posted, recv_posted, OperationType, PerIoData,
}
use amsserver.Base.{refl, ◌≡◌, ◌∷◌, [], none, List, ℕ, ◌≢◌, ◌≤◌, sym, arith, Option, ◌<◌, ◌∙◌, ap}
use amsserver.Server.Interleaved.Own.{IsClear, Backs, IsKept, AreKept, Steady, AreDistinct}
use amsserver.Server.System.Owned.{Spares, IsFree, with_new_io}
use amsserver.Server.System.Safe.{with_io}
use amsserver.Server.System.Sound.{with_operation}
use amsserver.Io.World.{World, Pending}

-- A change that keeps what is behind each kind of operation.
AreKept-mono :
    (w v : World) (ops : List Pending)
    → w.next_io ≤ v.next_io
    → ((k : ℕ) → w.handles k ≢ none → v.handles k ≢ none)
    → ((k : OperationType) (p : ℕ) → p < w.next_io → Backs k p w → Backs k p v)
    → AreKept w ops
    → AreKept v ops
AreKept-mono w v [] n h b a = tt
AreKept-mono w v (op ∷ ops) n h b ((k, p, l, t, r), a) =
    ((k, p, omega arith, h op.key t, b op.kind op.io l r), AreKept-mono w v ops n h b a)

Backs-same :
    (w v : World) (k : OperationType) (p : ℕ) → v.ios p ≡ w.ios p → Backs k p w → Backs k p v
Backs-same w v accept_posted p e b = λ f. b (sym e ∙ f)
Backs-same w v recv_posted p e b = λ f. b (sym e ∙ f)
Backs-same w v send_posted p e b = rw e b
Backs-same w v null_posted p e b = λ f. b (sym e ∙ f)

pub AreKept-same :
    (w v : World) (ops : List Pending)
    → w.next_io ≡ v.next_io
    → v.ios ≡ w.ios
    → ((k : ℕ) → w.handles k ≢ none → v.handles k ≢ none)
    → AreKept w ops
    → AreKept v ops
AreKept-same w v ops n i h =
    AreKept-mono w v ops (omega arith) h (λ k p l b. Backs-same w v k p (ap (λ f. f p) i) b)

pub AreKept-new : (w : World) (ops : List Pending) → AreKept w ops → AreKept (with_new_io w) ops
AreKept-new w ops =
    AreKept-mono w (with_new_io w) ops (omega arith) (λ k h. h)
      (λ k p l b. Backs-same w (with_new_io w) k p (ground arith) b)

pub AreKept-clear :
    (w : World) (c : ℕ) (o : Option PerIoData) (ops : List Pending)
    → IsClear c ops
    → AreKept w ops
    → AreKept (with_io c o w) ops
AreKept-clear w c o [] f a = tt
AreKept-clear w c o (op ∷ ops) (n, f) ((k, p, l, t, r), a) = (
  (k, p, l, t, Backs-same w (with_io c o w) op.kind op.io (ground (arith, n)) r),
  AreKept-clear w c o ops f a,
)

Backs-release :
    (w : World) (c : ℕ) (k : OperationType) (p : ℕ)
    → Spares k c p
    → Backs k p w
    → Backs k p (with_io c none w)
Backs-release w c accept_posted p n b = ground (arith, b, n)
Backs-release w c recv_posted p n b = ground (arith, b, n)
Backs-release w c send_posted p n b = elim (ℕ_discrete c p) [
  | yes e ↦ rw e (ground arith)
  | no d ↦ Backs-same w (with_io c none w) send_posted p (ground arith) b
]
Backs-release w c null_posted p n b = ground (arith, b, n)

pub AreKept-release :
    (w : World) (c : ℕ) (ops : List Pending)
    → IsFree c ops
    → AreKept w ops
    → AreKept (with_io c none w) ops
AreKept-release w c [] f a = tt
AreKept-release w c (op ∷ ops) (n, f) ((k, p, l, t, r), a) =
    ((k, p, l, t, Backs-release w c op.kind op.io n r), AreKept-release w c ops f a)

-- A clear io is free.
Spares-clear : (k : OperationType) (c p : ℕ) → p ≢ c → Spares k c p
Spares-clear accept_posted c p n = n
Spares-clear recv_posted c p n = n
Spares-clear send_posted c p n = tt
Spares-clear null_posted c p n = n

pub IsClear-IsFree : (c : ℕ) (ops : List Pending) → IsClear c ops → IsFree c ops
IsClear-IsFree c [] f = tt
IsClear-IsFree c (op ∷ ops) (n, f) = (Spares-clear op.kind c op.io n, IsClear-IsFree c ops f)

-- An io that is not made yet is clear.
pub IsClear-new : (w : World) (ops : List Pending) → AreKept w ops → IsClear w.next_io ops
IsClear-new w [] a = tt
IsClear-new w (op ∷ ops) ((k, p, l, t, r), a) = (omega (arith, l), IsClear-new w ops a)

-- An operation on a clear io.
pub Steady-start :
    (op : Pending) (w : World)
    → Steady w
    → IsKept w op
    → IsClear op.io w.pending
    → Steady (with_operation op w)
Steady-start op w s k f = record {
  next_io_given = s.next_io_given;
  next_handle_given = s.next_handle_given;
  listener_given = s.listener_given;
  listener_there = s.listener_there;
  kept = (
    (k.0, k.1, k.2, k.3, Backs-same w (with_operation op w) op.kind op.io refl k.4),
    AreKept-same w (with_operation op w) w.pending refl refl (λ q h. h) s.kept,
  );
  distinct = (f, s.distinct);
}

-- A change of the world beside its operations and numbers.
pub Steady-of :
    (w v : World)
    → v.next_io ≡ w.next_io
    → v.next_handle ≡ w.next_handle
    → v.listenhandle ≡ w.listenhandle
    → v.pending ≡ w.pending
    → v.handles v.listenhandle ≢ none
    → AreKept v w.pending
    → Steady w
    → Steady v
Steady-of w v n m l p t k s = record {
  next_io_given = omega (arith, s.next_io_given);
  next_handle_given = omega (arith, s.next_handle_given);
  listener_given = omega (arith, s.listener_given);
  listener_there = t;
  kept = subst (AreKept v) (sym p) k;
  distinct = subst AreDistinct (sym p) s.distinct;
}
