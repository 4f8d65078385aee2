-- ===== src/Server/Interleaved/Own.antt =====
-- What a thread owns of the shared objects, and what its steps leave to the others.
use amsserver.Io.Buffer.{send_posted, OperationType, PerIoData}
use amsserver.Base.{◌∷◌, [], none, some, true, ℕ, Option, ◌≢◌, List, ◌≡◌, Bool, ◌<◌, ◌⊎◌}
use amsserver.Io.World.{World, Pending}
use amsserver.Server.System.Owned.{IsFree}

-- What an io is to a thread. It may hold it for itself, and then it may have made it a send, `sends`. With
-- its send started, `leaves`, only the release remains. A thread that has taken the completion of a send
-- looks at the io, `looks`, which may be released meanwhile.
pub data Role : Type 0 where
  none_of holds sends leaves looks : Role

pub record Own : Type 0 where
  pub role : ℕ → Role
  -- The handles that it knows to be there.
  pub knows : ℕ → Bool
  -- Whether it has the heap mutex.
  pub locks : Bool

-- What an io is to two threads.
abbrev pub Shares : Role → Role → Type 0
Shares none_of r = Unit {0}
Shares r none_of = Unit {0}
Shares leaves looks = Unit {0}
Shares looks leaves = Unit {0}
Shares looks looks = Unit {0}
Shares _ _ = ⊥

-- No operation at all is pending on the io.
abbrev pub IsClear : ℕ → List Pending → Type 0
IsClear p [] = Unit {0}
IsClear p (op ∷ ops) = (op.io ≢ p) × IsClear p ops

abbrev pub IsSend : Option PerIoData → Type 0
IsSend none = Unit {0}
IsSend (some d) = d.operationtype ≡ send_posted

-- What the world has for an io with a role.
abbrev pub Claim : Role → ℕ → World → Type 0
Claim none_of p w = Unit {0}
Claim holds p w = (p ≢ 0) × (p < w.next_io) × (w.ios p ≢ none) × IsClear p w.pending
Claim sends p w =
    (p ≢ 0) × (p < w.next_io) × (w.ios p ≢ none) × IsClear p w.pending × IsSend (w.ios p)
Claim leaves p w =
    (p ≢ 0) × (p < w.next_io) × (w.ios p ≢ none) × IsFree p w.pending × IsSend (w.ios p)
Claim looks p w = (p < w.next_io) × IsFree p w.pending × IsSend (w.ios p)

pub record Claims (r : Own) (w : World) : Type 0 where
  pub ios : (p : ℕ) → Claim (r.role p) p w
  pub handles : (k : ℕ) → r.knows k ≡ true → w.handles k ≢ none
  pub mutex : r.locks ≡ true → w.heap_locked ≡ true

-- Two threads.
pub record Fits (r s : Own) : Type 0 where
  pub ios : (p : ℕ) → Shares (r.role p) (s.role p)
  pub mutex : r.locks ≡ true → s.locks ≡ true → ⊥

-- A pending operation has a live handle. An accept and a receive have a live io, and the io of a send is
-- that of a send, or released.
abbrev pub Backs : OperationType → ℕ → World → Type 0
Backs send_posted p w = IsSend (w.ios p)
Backs _ p w = w.ios p ≢ none

abbrev pub IsKept : World → Pending → Type 0
IsKept w op =
    (op.key ≢ 0)
    × (op.io ≢ 0)
    × (op.io < w.next_io)
    × (w.handles op.key ≢ none)
    × Backs op.kind op.io w

abbrev pub AreKept : World → List Pending → Type 0
AreKept w [] = Unit {0}
AreKept w (op ∷ ops) = IsKept w op × AreKept w ops

-- No two operations have the same io.
abbrev pub AreDistinct : List Pending → Type 0
AreDistinct [] = Unit {0}
AreDistinct (op ∷ ops) = IsClear op.io ops × AreDistinct ops

pub record Steady (w : World) : Type 0 where
  pub next_io_given : w.next_io ≢ 0
  pub next_handle_given : w.next_handle ≢ 0
  pub listener_given : w.listenhandle ≢ 0
  pub listener_there : w.handles w.listenhandle ≢ none
  pub kept : AreKept w w.pending
  pub distinct : AreDistinct w.pending

-- A step of a thread, which owned `r` and then owns `s`.
pub record After (r s : Own) (w v : World) : Type 0 where
  pub steady : Steady v
  pub claims : Claims s v
  pub others : (t : Own) → Fits r t → Claims t w → Fits s t × Claims t v
  -- If the mutex is taken then, the thread has it, or it was taken and the thread has not given it back.
  pub mutex :
      v.heap_locked ≡ true
      → (s.locks ≡ true) ⊎ ((w.heap_locked ≡ true) × (r.locks ≡ true → s.locks ≡ true))
