-- ===== src/Server/Interleaved/Ends.antt =====
-- The rounds of the threads end.
use amsserver.Server.Interleaved.Accepts.{Unlocked}
use mathlib.Core.Path.{subst}
use native.Mathlib.Decide.{ℕ_discrete}
use amsserver.Server.Interleaved.Finite.{Comes-Acc, Comes}
use amsserver.Server.Interleaved.Moves.{Reach-Good, Lands}
use amsserver.Server.Interleaved.Own.{Steady}
use amsserver.Server.Interleaved.Safety.{IsGoing, no_deadlock, lands}
use amsserver.Io.World.{World}
use amsserver.Server.Interleaved.Steps.{Stepped, advance, ended, faults, blocked, Steps, goes}
use amsserver.Base.{
  refl, ◌≡◌, true, false, zero, suc, inl, inr, ℕ, Bytes, ◌<◌, Bool, ◌⊎◌, Fault, arith, sym,
  Bool-cases,
}
use mathlib.Core.WellFounded.{Acc}
use amsserver.Server.Interleaved.Pool.{Pool, Goes, goes_on, replace, Reach, steps, moves}

-- Steps of the threads, one after the other, with no completion taken.
pub data Later (n : ℕ) : Pool → Pool → Type 1 where
  stays : {s t : Pool} → s ≡ t → Later n s t
  goes_then : {s u t : Pool} → Goes n s u → Later n u t → Later n s t

abbrev pub HaveEnded : ℕ → Pool → Type 1
HaveEnded n s = (i : ℕ) → i < n → (b : Bool) × (advance (s.thread i).rest s.world ≡ ended b)

abbrev pub HasFault : ℕ → Pool → Type 1
HasFault n s = (i : ℕ) × (i < n) × ((e : Fault) × (advance (s.thread i).rest s.world ≡ faults e))

-- The thread can take its next step, or breaks off on it.
abbrev IsMoving : Stepped Bool → Type 0
IsMoving (ended x) = ⊥
IsMoving blocked = ⊥
IsMoving (faults e) = Unit {0}
IsMoving (goes p v) = Unit {0}

IsGoing-IsMoving : (o : Stepped Bool) → IsGoing o → IsMoving o
IsGoing-IsMoving (ended x) m = m
IsGoing-IsMoving blocked m = m
IsGoing-IsMoving (faults e) m = absurd m
IsGoing-IsMoving (goes p v) m = tt

abbrev IsOpen : Stepped Bool → Type 1
IsOpen o = ((e : Fault) × (o ≡ faults e)) ⊎ ((q : Steps Bool) × (v : World) × (o ≡ goes q v))

IsOpen-of : (o : Stepped Bool) → IsMoving o → IsOpen o
IsOpen-of (ended x) m = absurd m
IsOpen-of blocked m = absurd m
IsOpen-of (faults e) m = inl (e, refl)
IsOpen-of (goes q v) m = inr (q, v, refl)

cases_of : (o : Stepped Bool) → ((b : Bool) × (o ≡ ended b)) ⊎ ((o ≡ blocked) ⊎ IsMoving o)
cases_of (ended x) = inl (x, refl)
cases_of blocked = inr (inl refl)
cases_of (faults e) = inr (inr tt)
cases_of (goes q v) = inr (inr tt)

-- Each of the first `m` threads has ended, or one is stopped or goes on.
search :
    (m : ℕ) (s : Pool)
    → HaveEnded m s
      ⊎ ((i : ℕ) × (i < m)
          × ((advance (s.thread i).rest s.world ≡ blocked)
              ⊎ IsMoving (advance (s.thread i).rest s.world)))
search zero s = inl (λ i l. absurd (omega (arith, l)))
search (suc m) s = elim (cases_of (advance (s.thread m).rest s.world)) [
  | inr o ↦ inr (m, omega arith, o)
  | inl e ↦ elim (search m s) [
    | inr (i, l, o) ↦ inr (i, omega (arith, l), o)
    | inl h ↦ inl λ i l. elim (ℕ_discrete i m) [
      | yes d ↦ subst (λ i. (b : Bool) × (advance (s.thread i).rest s.world ≡ ended b)) (sym d) e
      | no d ↦ h i (omega (arith, l, d))
    ]
  ]
]

module _ (sizes : Bytes → ℕ) (n : ℕ) (w : World) (h : Steady w) (free : w.heap_locked ≡ false) where
  -- A thread that waits is not alone.
  someone_moves :
      (s : Pool)
      → Reach sizes n w s
      → HaveEnded n s ⊎ ((i : ℕ) × (i < n) × IsMoving (advance (s.thread i).rest s.world))
  someone_moves s r = elim (search n s) [
    | inl e ↦ inl e
    | inr (i, l, inl b) ↦
        let (j, k, m) = no_deadlock sizes n w s h free r i b in
        inr (j, k, IsGoing-IsMoving (advance (s.thread j).rest s.world) m)
    | inr (i, l, inr m) ↦ inr (i, l, m)
  ]

  -- At the end of all rounds the mutex is free.
  ended_free : (s : Pool) → Reach sizes n w s → HaveEnded n s → s.world.heap_locked ≡ false
  ended_free s r e = elim (Bool-cases s.world.heap_locked) [
    | inr f ↦ f
    | inl f ↦ absurd (holds_none f)
  ]
    where
      not_ended : {b : Bool} → b ≡ false → b ≡ true → ⊥
      not_ended f g = cc

      holds_none : s.world.heap_locked ≡ true → ⊥
      holds_none f =
          let g = Reach-Good sizes n w s h free r in
          let (i, l, m) = g.locked f in
          let (b, d) = e i l in
          not_ended (subst (Lands _ (g.owns i) s.world Unlocked) d (lands sizes n w s g i)) m

  ends_from :
      (s : Pool)
      → Acc (Comes n) s
      → Reach sizes n w s
      → (t : Pool) × Later n s t × ((HaveEnded n t × (t.world.heap_locked ≡ false)) ⊎ HasFault n t)
  ends_from s (Acc.intro _ k) r = elim (someone_moves s r) [
    | inl e ↦ (s, stays refl, inl (e, ended_free s r e))
    | inr (i, l, m) ↦ elim (IsOpen-of (advance (s.thread i).rest s.world) m) [
      | inl f ↦ (s, stays refl, inr (i, l, f))
      | inr (q, v, f) ↦
          let u : Pool = record {
            world = v;
            thread = replace s.thread i (record { kind = (s.thread i).kind; rest = q });
          } in
          let g : Goes n s u = goes_on i q v l f refl in
          let (t, a, b) = ends_from u (k u g) (moves r (steps g)) in (t, goes_then g a, b)
    ]
  ]

  -- From a world with the invariant of the threads in which the mutex is free, in any pool that is
  -- reached: with no new completion the threads take only so many steps, in whatever order, and they can go
  -- on until the rounds of all of them have ended and the mutex is free, or one of them breaks off with a
  -- fault.
  pub rounds_end :
      (s : Pool)
      → Reach sizes n w s
      → Acc (Comes n) s
        × ((t : Pool) × Later n s t
            × ((HaveEnded n t × (t.world.heap_locked ≡ false)) ⊎ HasFault n t))
  rounds_end s r = (Comes-Acc n s, ends_from s (Comes-Acc n s) r)
