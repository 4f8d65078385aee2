-- ===== src/Server/System/Sound.antt =====
-- The invariant of the server, and what a handler may do with an io that no pending operation owns.
use mathlib.Core.Path.{subst}
use amsserver.Io.Buffer.{
  PerIoData, recv_posted, accept_posted, null_posted, send_posted, OperationType,
}
use amsserver.Base.{refl, ◌≡◌, none, some, ◌≢◌, ℕ, Option, ◌<◌, arith, ◌∷◌, sym, ap, List, ◌∙◌}
use amsserver.Server.System.Owned.{
  AreBacked, AreApart, IsFree, IsBacked, IsAlone, AreBacked-store, AreBacked-release, AreBacked-new,
  IsFree-new, AreBacked-handles, with_new_io, Spares,
}
use amsserver.Server.System.Safe.{with_io}
use amsserver.Io.World.{World, Pending}

pub record Sound (w : World) : Type 0 where
  pub next_io_given : w.next_io ≢ 0
  pub next_handle_given : w.next_handle ≢ 0
  pub listener_given : w.listenhandle ≢ 0
  pub listener_there : w.handles w.listenhandle ≢ none
  pub backed : AreBacked w w.pending
  pub apart : AreApart w.pending

-- A handler holds an io: it is there, and no accept and no receive is pending on it.
pub record Held (p : ℕ) (w : World) : Type 0 where
  pub given : p ≢ 0
  pub made : p < w.next_io
  pub free : IsFree p w.pending
  pub there : w.ios p ≢ none

-- What a call on the io `c` leaves: the invariant, each handle, and each other io that is held.
pub record Since (c : ℕ) (w v : World) : Type 0 where
  pub sound : Sound v
  pub handles_stay : (k : ℕ) → w.handles k ≢ none → v.handles k ≢ none
  pub held_stay : (q : ℕ) → q ≢ c → Held q w → Held q v

pub Since-refl : (c : ℕ) (w : World) → Sound w → Since c w w
Since-refl c w s = record { sound = s; handles_stay = λ k h. h; held_stay = λ q n h. h }

pub Since-trans : (c : ℕ) (u v w : World) → Since c u v → Since c v w → Since c u w
Since-trans c u v w a b = record {
  sound = b.sound;
  handles_stay = λ k h. b.handles_stay k (a.handles_stay k h);
  held_stay = λ q n h. b.held_stay q n (a.held_stay q n h);
}

pub some_of_ne : {A : Type 0} (o : Option A) → o ≢ none → (a : A) × (o ≡ some a)
some_of_ne none n = absurd (n refl)
some_of_ne (some a) n = (a, refl)

-- A world with the same operations, handles and numbers.
same-Sound :
    (w v : World)
    → v.next_io ≡ w.next_io
    → v.next_handle ≡ w.next_handle
    → v.listenhandle ≡ w.listenhandle
    → v.handles ≡ w.handles
    → v.pending ≡ w.pending
    → AreBacked v w.pending
    → Sound w
    → Sound v
same-Sound w v n m l h p b s = record {
  next_io_given = omega (arith, s.next_io_given);
  next_handle_given = omega (arith, s.next_handle_given);
  listener_given = omega (arith, s.listener_given);
  listener_there =
      λ e. s.listener_there (sym (ap (λ g. g w.listenhandle) h) ∙ (sym (ap v.handles l) ∙ e));
  backed = subst (λ l. AreBacked v l) (sym p) b;
  apart = subst AreApart (sym p) s.apart;
}

-- The held io is stored, and is still held.
pub Since-store :
    (p : ℕ) (d : PerIoData) (w : World)
    → Sound w
    → Held p w
    → Since p w (with_io p (some d) w) × Held p (with_io p (some d) w)
Since-store p d w s h =
    let (e, t) = some_of_ne (w.ios p) h.there in
    (
      record {
        sound =
            same-Sound w (with_io p (some d) w) refl refl refl refl refl
              (AreBacked-store w p d e w.pending t h.free s.backed) s;
        handles_stay = λ k i. i;
        held_stay = λ q n i. record {
          given = i.given;
          made = i.made;
          free = i.free;
          there = ground (arith, i.there);
        };
      },
      record { given = h.given; made = h.made; free = h.free; there = ground arith },
    )

-- The held io is released.
pub Since-release : (p : ℕ) (w : World) → Sound w → Held p w → Since p w (with_io p none w)
Since-release p w s h = record {
  sound =
      same-Sound w (with_io p none w) refl refl refl refl refl
        (AreBacked-release w p w.pending h.free s.backed) s;
  handles_stay = λ k i. i;
  held_stay = λ q n i. record {
    given = i.given;
    made = i.made;
    free = i.free;
    there = ground (arith, i.there);
  };
}

-- A new io is held.
pub Since-new :
    (w : World) → Sound w → Since w.next_io w (with_new_io w) × Held w.next_io (with_new_io w)
Since-new w s = (
  record {
    sound = record {
      next_io_given = omega arith;
      next_handle_given = s.next_handle_given;
      listener_given = s.listener_given;
      listener_there = s.listener_there;
      backed = AreBacked-new w w.pending s.backed;
      apart = s.apart;
    };
    handles_stay = λ k i. i;
    held_stay = λ q n i. record {
      given = i.given;
      made = omega (arith, i.made);
      free = i.free;
      there = ground (arith, i.there);
    };
  },
  record {
    given = s.next_io_given;
    made = omega arith;
    free = IsFree-new w w.pending s.backed;
    there = ground arith;
  },
)

-- An operation is started.
abbrev pub with_operation : Pending → World → World
with_operation op w = record w { pending = op ∷ w.pending }

Spares-ne : (k : OperationType) (p q : ℕ) → p ≢ q → Spares k p q
Spares-ne accept_posted p q n = λ e. n (sym e)
Spares-ne recv_posted p q n = λ e. n (sym e)
Spares-ne send_posted p q n = tt
Spares-ne null_posted p q n = λ e. n (sym e)

IsAlone-free : (k : OperationType) (p : ℕ) (ops : List Pending) → IsFree p ops → IsAlone k p ops
IsAlone-free accept_posted p ops f = f
IsAlone-free recv_posted p ops f = f
IsAlone-free send_posted p ops f = tt
IsAlone-free null_posted p ops f = f

pub Since-start :
    (op : Pending) (w : World)
    → Sound w
    → IsBacked w op
    → IsFree op.io w.pending
    → Since op.io w (with_operation op w)
Since-start op w s b f = record {
  sound = record {
    next_io_given = s.next_io_given;
    next_handle_given = s.next_handle_given;
    listener_given = s.listener_given;
    listener_there = s.listener_there;
    backed =
        AreBacked-handles w (with_operation op w) (op ∷ w.pending) refl refl (λ k i. i)
          (b, s.backed);
    apart = (IsAlone-free op.kind op.io w.pending f, s.apart);
  };
  handles_stay = λ k i. i;
  held_stay = λ q n i. record {
    given = i.given;
    made = i.made;
    free = (Spares-ne op.kind q op.io n, i.free);
    there = i.there;
  };
}

-- A change that the invariant does not look at.
module _ (w v : World) (i : v.ios ≡ w.ios) (n : v.next_io ≡ w.next_io)
    (m : v.next_handle ≡ w.next_handle) (l : v.listenhandle ≡ w.listenhandle)
    (h : v.handles ≡ w.handles) (p : v.pending ≡ w.pending) where
  pub Held-other : (q : ℕ) → Held q w → Held q v
  Held-other q g = record {
    given = g.given;
    made = omega (arith, g.made);
    free = subst (IsFree q) (sym p) g.free;
    there = λ e. g.there (sym (ap (λ f. f q) i) ∙ e);
  }

  handles_stay_other : (k : ℕ) → w.handles k ≢ none → v.handles k ≢ none
  handles_stay_other k g e = g (sym (ap (λ f. f k) h) ∙ e)

  pub Since-other : (c : ℕ) → Sound w → Since c w v
  Since-other c s = record {
    sound =
        same-Sound w v n m l h p (AreBacked-handles w v w.pending i n handles_stay_other s.backed)
          s;
    handles_stay = handles_stay_other;
    held_stay = λ q d g. Held-other q g;
  }
