-- ===== src/Singleton.antt =====
-- The singleton pattern of IOCPServer, FileLog and HeapProtectMutex: a static pointer that the
-- constructor sets if it is NULL and the destructor clears if it is its own. 0 is NULL.
use mathlib.Core.Path.{subst}
use native.Mathlib.Decide.{ℕ_discrete}
use amsserver.Base.{
  ℕ, ◌==◌, if◌then◌else◌, ◌∷◌, [], inl, inr, not, List, ◌≢◌, ◌≡◌, ◌⊎◌, arith, refl, sym,
}

unfoldable pub construct : ℕ → ℕ → ℕ
construct this instance_pointer = if not (instance_pointer == 0) then instance_pointer else this

unfoldable pub destroy : ℕ → ℕ → ℕ
destroy this instance_pointer = if instance_pointer == this then 0 else instance_pointer

unfoldable pub get_singleton_instance : ℕ → ℕ
get_singleton_instance instance_pointer = instance_pointer

-- The static pointer, and the objects that are alive, the newest first.
pub record Statics : Type 0 where
  pub pointer : ℕ
  pub alive : List ℕ

abbrev pub IsAlive : ℕ → List ℕ → Type 0
IsAlive p [] = ⊥
IsAlive p (x ∷ xs) = (p ≡ x) ⊎ IsAlive p xs

unfoldable pub remove : ℕ → List ℕ → List ℕ
remove p [] = []
remove p (x ∷ xs) = if x == p then remove p xs else x ∷ remove p xs

-- Objects are made at addresses that are not NULL, and a live object may be destroyed.
pub data Step (s t : Statics) : Type 0 where
  make :
      (this : ℕ)
      → this ≢ 0
      → t ≡ record { pointer = construct this s.pointer; alive = this ∷ s.alive }
      → Step s t
  unmake :
      (this : ℕ)
      → IsAlive this s.alive
      → t ≡ record { pointer = destroy this s.pointer; alive = remove this s.alive }
      → Step s t

pub data Reach : Statics → Type 0 where
  start : (s : Statics) → s ≡ record { pointer = 0; alive = [] } → Reach s
  step : {s t : Statics} → Reach s → Step s t → Reach t

IsAlive-remove : (p q : ℕ) (xs : List ℕ) → p ≢ q → IsAlive p xs → IsAlive p (remove q xs)
unfolding remove
IsAlive-remove p q [] n a = a
IsAlive-remove p q (x ∷ xs) n (inl e) = ground arith
IsAlive-remove p q (x ∷ xs) n (inr a) = ground (arith, IsAlive-remove p q xs n a)

abbrev pub Valid : Statics → Type 0
Valid s = (s.pointer ≡ 0) ⊎ IsAlive s.pointer s.alive

construct-Valid :
    (s : Statics) (this : ℕ)
    → Valid s
    → Valid (record { pointer = construct this s.pointer; alive = this ∷ s.alive })
unfolding construct
construct-Valid s this (inl e) = ground arith
construct-Valid s this (inr a) = ground arith

destroy-Valid :
    (s : Statics) (this : ℕ)
    → Valid s
    → Valid (record { pointer = destroy this s.pointer; alive = remove this s.alive })
unfolding destroy
destroy-Valid s this (inl e) = ground arith
destroy-Valid s this (inr a) = elim (ℕ_discrete s.pointer this) [
  | yes e ↦ ground arith
  | no n ↦ ground (arith, IsAlive-remove s.pointer this s.alive n a)
]

-- Whatever objects of a class are made and destroyed, in any order, the static pointer
-- is NULL or points to an object that is alive.
pub Reach-Valid : (s : Statics) → Reach s → Valid s
Reach-Valid s (start _ e) = subst Valid (sym e) (inl refl)
Reach-Valid t (step {s} r (make this n e)) =
    subst Valid (sym e) (construct-Valid s this (Reach-Valid s r))
Reach-Valid t (step {s} r (unmake this a e)) =
    subst Valid (sym e) (destroy-Valid s this (Reach-Valid s r))
