-- ===== src/Server/System/Safe.antt =====
-- Runs that never access a released object. Other faults may end them.
use amsserver.Io.Buffer.{PerIoData}
use amsserver.Base.{
  if◌then◌else◌, some, true, false, done, crash, Outcome, Bool, ℕ, ◌≢◌, Option, use_after_free, ◌≡◌,
  IsTame,
}
use amsserver.Io.World.{World, M, lift, ◌>>=◌, load, load_handle, store, SocketHandle, update, ◌>>◌}

abbrev pub Safe : {A : Type 0} → (World → Type 0) → Outcome (A × World) → Type 0
Safe P (done (x, v)) = P v
Safe P (crash e) = e ≢ use_after_free

pub Safe-bind :
    {A B : Type 0} (Q P : World → Type 0) (m : M A) (f : A → M B) (w : World)
    → Safe Q (m w)
    → ((x : A) (v : World) → Q v → Safe P (f x v))
    → Safe P ((m >>= f) w)
Safe-bind {A} Q P m f w h k = go (m w) h
  where
    go :
        (o : Outcome (A × World))
        → Safe Q o
        → Safe P (elim o [ done (x, v) ↦ f x v | crash e ↦ crash e ])
    go (done (x, v)) q = k x v q
    go (crash e) q = q

pub Safe-mono :
    {A : Type 0} (Q P : World → Type 0) (o : Outcome (A × World))
    → Safe Q o
    → ((v : World) → Q v → P v)
    → Safe P o
Safe-mono Q P (done (x, v)) q k = k v q
Safe-mono Q P (crash e) q k = q

pub Safe-if :
    {A : Type 0} (P : World → Type 0) (b : Bool) (m n : M A) (w : World)
    → Safe P (m w)
    → Safe P (n w)
    → Safe P ((if b then m else n) w)
Safe-if P true m n w p q = p
Safe-if P false m n w p q = q

pub Safe-lift :
    {A B : Type 0} (P : World → Type 0) (o : Outcome A) (f : A → M B) (w : World)
    → IsTame o
    → ((x : A) → Safe P (f x w))
    → Safe P ((lift o >>= f) w)
Safe-lift P (done x) f w t k = k x
Safe-lift P (crash e) f w t k = t

-- An object that is there is found.
pub Safe-load :
    {B : Type 0} (P : World → Type 0) (p : ℕ) (f : PerIoData → M B) (w : World) (d : PerIoData)
    → w.ios p ≡ some d
    → Safe P (f d w)
    → Safe P ((load p >>= f) w)
unfolding load
Safe-load P p f w d e h = rw (e, Safe) h

pub Safe-load_handle :
    {B : Type 0} (P : World → Type 0) (k : ℕ) (f : SocketHandle → M B) (w : World)
    (h : SocketHandle)
    → w.handles k ≡ some h
    → Safe P (f h w)
    → Safe P ((load_handle k >>= f) w)
unfolding load_handle
Safe-load_handle P k f w h e s = rw (e, Safe) s

-- The world with an io stored, or released.
abbrev pub with_io : ℕ → Option PerIoData → World → World
with_io p o w = record w { ios = update w.ios p o }

pub Safe-store :
    {B : Type 0} (P : World → Type 0) (p : ℕ) (d : PerIoData) (m : M B) (w : World) (e : PerIoData)
    → w.ios p ≡ some e
    → Safe P (m (with_io p (some d) w))
    → Safe P ((store p d >> m) w)
unfolding store
Safe-store P p d m w e h s = rw (h, Safe) s
