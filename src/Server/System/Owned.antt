-- ===== src/Server/System/Owned.antt =====
-- What a pending operation refers to, and what changes of the world keep of it.
use amsserver.Base.{◌∷◌, [], none, some, suc, ℕ, ◌≢◌, List, ◌<◌, ◌≡◌, arith, ap, ◌∙◌}
use amsserver.Server.System.Safe.{with_io}
use amsserver.Io.World.{World, Pending, update}
use amsserver.Io.Buffer.{
  OperationType, accept_posted, recv_posted, send_posted, null_posted, PerIoData, new_io,
}

-- The io of an accept or a receive is there, for that kind of operation. The io of a send is released.
abbrev pub Owns : OperationType → World → ℕ → Type 0
Owns accept_posted w p =
    (p < w.next_io) × ((d : PerIoData) × (w.ios p ≡ some d) × (d.operationtype ≡ accept_posted))
Owns recv_posted w p =
    (p < w.next_io) × ((d : PerIoData) × (w.ios p ≡ some d) × (d.operationtype ≡ recv_posted))
Owns send_posted w p = (p < w.next_io) × (w.ios p ≡ none)
Owns null_posted w p = ⊥

abbrev pub IsBacked : World → Pending → Type 0
IsBacked w op = (op.key ≢ 0) × (op.io ≢ 0) × (w.handles op.key ≢ none) × Owns op.kind w op.io

abbrev pub AreBacked : World → List Pending → Type 0
AreBacked w [] = Unit {0}
AreBacked w (op ∷ ops) = IsBacked w op × AreBacked w ops

-- No accept and no receive among the operations has this io.
abbrev pub Spares : OperationType → ℕ → ℕ → Type 0
Spares send_posted p q = Unit {0}
Spares _ p q = q ≢ p

abbrev pub IsFree : ℕ → List Pending → Type 0
IsFree p [] = Unit {0}
IsFree p (op ∷ ops) = Spares op.kind p op.io × IsFree p ops

-- No two accepts or receives have the same io.
abbrev pub IsAlone : OperationType → ℕ → List Pending → Type 0
IsAlone send_posted p ops = Unit {0}
IsAlone _ p ops = IsFree p ops

abbrev pub AreApart : List Pending → Type 0
AreApart [] = Unit {0}
AreApart (op ∷ ops) = IsAlone op.kind op.io ops × AreApart ops

-- A change that keeps what each kind of operation owns keeps all of them.
AreBacked-mono :
    (w v : World) (ops : List Pending)
    → ((k : ℕ) → w.handles k ≢ none → v.handles k ≢ none)
    → ((op : Pending) → Owns op.kind w op.io → Owns op.kind v op.io)
    → AreBacked w ops
    → AreBacked v ops
AreBacked-mono w v [] h o b = tt
AreBacked-mono w v (op ∷ ops) h o ((k, p, t, r), b) =
    ((k, p, h op.key t, o op r), AreBacked-mono w v ops h o b)

Owns-same :
    (w v : World) (k : OperationType) (q : ℕ)
    → v.ios ≡ w.ios
    → v.next_io ≡ w.next_io
    → Owns k w q
    → Owns k v q
Owns-same w v accept_posted q i n (l, (f, e, o)) = (omega arith, (f, ap (λ g. g q) i ∙ e, o))
Owns-same w v recv_posted q i n (l, (f, e, o)) = (omega arith, (f, ap (λ g. g q) i ∙ e, o))
Owns-same w v send_posted q i n (l, e) = (omega arith, ap (λ g. g q) i ∙ e)
Owns-same w v null_posted q i n o = o

pub AreBacked-handles :
    (w v : World) (ops : List Pending)
    → v.ios ≡ w.ios
    → v.next_io ≡ w.next_io
    → ((k : ℕ) → w.handles k ≢ none → v.handles k ≢ none)
    → AreBacked w ops
    → AreBacked v ops
AreBacked-handles w v ops i n h =
    AreBacked-mono w v ops h (λ op r. Owns-same w v op.kind op.io i n r)

Owns-store :
    (w : World) (p : ℕ) (d e : PerIoData) (k : OperationType) (q : ℕ)
    → w.ios p ≡ some e
    → Spares k p q
    → Owns k w q
    → Owns k (with_io p (some d) w) q
Owns-store w p d e accept_posted q h n (l, (f, i, o)) = (l, (f, ground arith, o))
Owns-store w p d e recv_posted q h n (l, (f, i, o)) = (l, (f, ground arith, o))
Owns-store w p d e send_posted q h n (l, i) = (l, ground arith)
Owns-store w p d e null_posted q h n o = o

pub AreBacked-store :
    (w : World) (p : ℕ) (d e : PerIoData) (ops : List Pending)
    → w.ios p ≡ some e
    → IsFree p ops
    → AreBacked w ops
    → AreBacked (with_io p (some d) w) ops
AreBacked-store w p d e [] h f b = tt
AreBacked-store w p d e (op ∷ ops) h (n, f) ((k, i, t, r), b) =
    ((k, i, t, Owns-store w p d e op.kind op.io h n r), AreBacked-store w p d e ops h f b)

Owns-release :
    (w : World) (p : ℕ) (k : OperationType) (q : ℕ)
    → Spares k p q
    → Owns k w q
    → Owns k (with_io p none w) q
Owns-release w p accept_posted q n (l, (f, i, o)) = (l, (f, ground arith, o))
Owns-release w p recv_posted q n (l, (f, i, o)) = (l, (f, ground arith, o))
Owns-release w p send_posted q n (l, i) = (l, ground arith)
Owns-release w p null_posted q n o = o

pub AreBacked-release :
    (w : World) (p : ℕ) (ops : List Pending)
    → IsFree p ops
    → AreBacked w ops
    → AreBacked (with_io p none w) ops
AreBacked-release w p [] f b = tt
AreBacked-release w p (op ∷ ops) (n, f) ((k, i, t, r), b) =
    ((k, i, t, Owns-release w p op.kind op.io n r), AreBacked-release w p ops f b)

-- A new io.
abbrev pub with_new_io : World → World
with_new_io w = record w { ios = update w.ios w.next_io (some new_io); next_io = suc w.next_io }

Owns-new : (w : World) (k : OperationType) (q : ℕ) → Owns k w q → Owns k (with_new_io w) q
Owns-new w accept_posted q (l, (f, i, o)) = (omega arith, (f, ground arith, o))
Owns-new w recv_posted q (l, (f, i, o)) = (omega arith, (f, ground arith, o))
Owns-new w send_posted q (l, i) = (omega arith, ground arith)
Owns-new w null_posted q o = o

pub AreBacked-new :
    (w : World) (ops : List Pending) → AreBacked w ops → AreBacked (with_new_io w) ops
AreBacked-new w ops =
    AreBacked-mono w (with_new_io w) ops (λ k h. h) (λ op r. Owns-new w op.kind op.io r)

Spares-new : (w : World) (k : OperationType) (q : ℕ) → Owns k w q → Spares k w.next_io q
Spares-new w accept_posted q (l, r) = omega arith
Spares-new w recv_posted q (l, r) = omega arith
Spares-new w send_posted q r = tt
Spares-new w null_posted q r = absurd r

-- An io that is not made yet is free.
pub IsFree-new : (w : World) (ops : List Pending) → AreBacked w ops → IsFree w.next_io ops
IsFree-new w [] b = tt
IsFree-new w (op ∷ ops) ((k, i, t, r), b) = (Spares-new w op.kind op.io r, IsFree-new w ops b)
