-- ===== src/Server/Interleaved/Pool.antt =====
-- The workers of the server as threads that take their steps in any order.
use amsserver.Io.Buffer.{accept_posted, OperationType}
use amsserver.Base.{if◌then◌else◌, ◌∷◌, true, false, ℕ, Bytes, Bool, ◌==◌, List, ◌≡◌, ◌<◌, ◌++◌}
use amsserver.Server.Interleaved.Steps.{Steps, gives, goes, advance}
use amsserver.Server.Interleaved.Handlers.{worker_round_steps}
use amsserver.Server.System.Taken.{without, store_received}
use amsserver.Server.Worker.{Completion}
use amsserver.Io.World.{World, Pending, Answers}

-- A thread has the rest of its round. `kind` is that of the completion that it has taken.
pub record Thread : Type 1 where
  pub kind : OperationType
  pub rest : Steps Bool

pub record Pool : Type 1 where
  pub world : World
  pub thread : ℕ → Thread

-- A thread that waits for a completion.
abbrev pub idle : Thread
idle = record { kind = accept_posted; rest = gives true }

abbrev pub replace {ℓ} : {A : Type ℓ} → (ℕ → A) → ℕ → A → ℕ → A
replace f i x j = if i == j then x else f j

-- One of the first `n` threads takes the next step of its round.
pub data Goes (n : ℕ) (s t : Pool) : Type 1 where
  goes_on :
      (i : ℕ) (rest : Steps Bool) (w : World)
      → i < n
      → advance (s.thread i).rest s.world ≡ goes rest w
      → t ≡ record {
        world = w;
        thread = replace s.thread i (record { kind = (s.thread i).kind; rest = rest });
      }
      → Goes n s t

module _ (sizes : Bytes → ℕ) (n : ℕ) where
  pub data Move (s t : Pool) : Type 1 where
    -- A thread whose round has ended with TRUE takes the completion of a pending operation, with any
    -- bytes, succeeded or not. The system answers the calls of its round in any way.
    takes :
        (i : ℕ) (a : Answers) (c : Completion) (op : Pending) (before after : List Pending)
        (bytes : Bytes)
        → i < n
        → (s.thread i).rest ≡ gives true
        → s.world.pending ≡ before ++ op ∷ after
        → c.key ≡ op.key
        → c.io ≡ op.io
        → t ≡ record {
          world = store_received op.kind op.io bytes (without before after s.world);
          thread =
              replace s.thread i (record { kind = op.kind; rest = worker_round_steps sizes a c });
        }
        → Move s t
    -- A thread takes the next step of its round.
    steps : Goes n s t → Move s t
    -- A thread takes the signal to exit.
    exits :
        (i : ℕ)
        → i < n
        → (s.thread i).rest ≡ gives true
        → t ≡ record s { thread = replace s.thread i (record idle { rest = gives false }) }
        → Move s t

  -- From a world in which all the threads wait.
  pub data Reach (w : World) : Pool → Type 1 where
    begins : (s : Pool) → s ≡ record { world = w; thread = λ i. idle } → Reach w s
    moves : {s t : Pool} → Reach w s → Move s t → Reach w t
