-- ===== src/Server/System/Taken.antt =====
-- What holds when the system completes a pending operation, and takes it off.
use mathlib.Core.Path.{subst}
use amsserver.Base.{
  refl, ◌≡◌, ◌∷◌, [], some, List, ℕ, ◌++◌, Bytes, ◌≢◌, Option, sym, ◌<◌, arith, none,
}
use amsserver.Server.System.Owned.{
  AreBacked, AreApart, IsFree, IsBacked, IsAlone, Spares, AreBacked-handles,
}
use amsserver.Server.System.Sound.{Sound, Held}
use amsserver.Io.World.{World, Pending, update}
use amsserver.Io.Buffer.{
  OperationType, accept_posted, recv_posted, send_posted, null_posted, PerIoData, receive,
}

-- The operation between `before` and `after` is taken off.
abbrev pub without : List Pending → List Pending → World → World
without before after w = record w { pending = before ++ after }

abbrev pub with_received : Bytes → Option PerIoData → Option PerIoData
with_received bytes none = none
with_received bytes (some d) = some (receive d bytes)

-- The system stores the bytes of a receive as it completes it.
abbrev pub store_received : OperationType → ℕ → Bytes → World → World
store_received recv_posted p bytes w = record w {
  ios = update w.ios p (with_received bytes (w.ios p));
}
store_received _ p bytes w = w

AreBacked-take :
    (w : World) (op : Pending) (before after : List Pending)
    → AreBacked w (before ++ op ∷ after)
    → IsBacked w op × AreBacked w (before ++ after)
AreBacked-take w op [] after b = b
AreBacked-take w op (x ∷ before) after (c, b) =
    let (d, e) = AreBacked-take w op before after b in (d, (c, e))

pub IsFree-take :
    (p : ℕ) (op : Pending) (before after : List Pending)
    → IsFree p (before ++ op ∷ after)
    → Spares op.kind p op.io × IsFree p (before ++ after)
IsFree-take p op [] after f = f
IsFree-take p op (x ∷ before) after (c, f) =
    let (d, e) = IsFree-take p op before after f in (d, (c, e))

IsAlone-take :
    (k : OperationType) (p : ℕ) (op : Pending) (before after : List Pending)
    → IsAlone k p (before ++ op ∷ after)
    → IsAlone k p (before ++ after)
IsAlone-take accept_posted p op before after f = (IsFree-take p op before after f).1
IsAlone-take recv_posted p op before after f = (IsFree-take p op before after f).1
IsAlone-take send_posted p op before after f = tt
IsAlone-take null_posted p op before after f = (IsFree-take p op before after f).1

AreApart-take :
    (op : Pending) (before after : List Pending)
    → AreApart (before ++ op ∷ after)
    → AreApart (before ++ after)
AreApart-take op [] after (c, a) = a
AreApart-take op (x ∷ before) after (c, a) =
    (IsAlone-take x.kind x.io op before after c, AreApart-take op before after a)

-- An accept or a receive that has the io `p` is not an operation with the io `q` that spares `p`.
Spares-differ : (l : OperationType) (p q : ℕ) → l ≢ send_posted → Spares l p q → q ≢ p
Spares-differ accept_posted p q n s = s
Spares-differ recv_posted p q n s = s
Spares-differ send_posted p q n s = absurd (n refl)
Spares-differ null_posted p q n s = s

Spares-back :
    (k : OperationType) (p : ℕ) (op : Pending) (before after : List Pending)
    → op.kind ≢ send_posted
    → IsAlone k p (before ++ op ∷ after)
    → Spares k op.io p
Spares-back accept_posted p op before after n f =
    λ e. Spares-differ op.kind p op.io n ((IsFree-take p op before after f).0) (sym e)
Spares-back recv_posted p op before after n f =
    λ e. Spares-differ op.kind p op.io n ((IsFree-take p op before after f).0) (sym e)
Spares-back send_posted p op before after n f = tt
Spares-back null_posted p op before after n f =
    λ e. Spares-differ op.kind p op.io n ((IsFree-take p op before after f).0) (sym e)

IsAlone-IsFree :
    (k : OperationType) (p : ℕ) (ops : List Pending)
    → k ≢ send_posted
    → IsAlone k p ops
    → IsFree p ops
IsAlone-IsFree accept_posted p ops n f = f
IsAlone-IsFree recv_posted p ops n f = f
IsAlone-IsFree send_posted p ops n f = absurd (n refl)
IsAlone-IsFree null_posted p ops n f = f

-- The io of an accept or a receive that is taken off is free.
IsFree-taken :
    (op : Pending) (before after : List Pending)
    → op.kind ≢ send_posted
    → AreApart (before ++ op ∷ after)
    → IsFree op.io (before ++ after)
IsFree-taken op [] after n (c, a) = IsAlone-IsFree op.kind op.io after n c
IsFree-taken op (x ∷ before) after n (c, a) =
    (Spares-back x.kind x.io op before after n c, IsFree-taken op before after n a)

module _ (w : World) (op : Pending) (before after : List Pending) (s : Sound w)
    (e : w.pending ≡ before ++ op ∷ after) where
  AreBacked-taken : IsBacked w op × AreBacked w (before ++ after)
  AreBacked-taken = AreBacked-take w op before after (subst (AreBacked w) e s.backed)

  pub IsBacked-taken : IsBacked w op
  IsBacked-taken = AreBacked-taken.0

  pub Sound-without : Sound (without before after w)
  Sound-without = record {
    next_io_given = s.next_io_given;
    next_handle_given = s.next_handle_given;
    listener_given = s.listener_given;
    listener_there = s.listener_there;
    backed =
        AreBacked-handles w (without before after w) (before ++ after) refl refl (λ k h. h)
          AreBacked-taken.1;
    apart = AreApart-take op before after (subst AreApart e s.apart);
  }

  pub Held-taken :
      (d : PerIoData)
      → op.kind ≢ send_posted
      → op.io < w.next_io
      → w.ios op.io ≡ some d
      → Held op.io (without before after w)
  Held-taken d n l f = record {
    given = IsBacked-taken.1;
    made = l;
    free = IsFree-taken op before after n (subst AreApart e s.apart);
    there = ground (arith, f);
  }
