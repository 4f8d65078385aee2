-- ===== src/Server/Interleaved/Steps.antt =====
-- A handler as a tree of steps. Between two steps of one thread the others may take theirs.
use amsserver.Base.{Outcome, done, crash, Fault, if◌then◌else◌, true}
use amsserver.Io.World.{World, M}

pub data Steps (A : Type 0) : Type 1 where
  gives : A → Steps A
  breaks : Fault → Steps A
  -- WaitHeapProtectMutex; the step waits while another thread has the mutex.
  waits : Steps A → Steps A
  -- One access or call, and what follows on its result.
  calls : {B : Type 0} → M B → (B → Steps A) → Steps A

infixl 5 ◌>>=◌ ◌>>◌
abbrev pub ◌>>=◌ : {A B : Type 0} → Steps A → (A → Steps B) → Steps B
gives x >>= f = f x
breaks e >>= f = breaks e
waits k >>= f = waits (k >>= f)
calls m k >>= f = calls m (λ b. k b >>= f)

abbrev pub ◌>>◌ : {B : Type 0} → Steps (Unit {0}) → Steps B → Steps B
m >> k = m >>= λ _. k

abbrev pub call : {A : Type 0} → M A → Steps A
call m = calls m (λ x. gives x)

-- A computation with no access to the shared objects.
abbrev pub pure : {A : Type 0} → Outcome A → Steps A
pure (done x) = gives x
pure (crash e) = breaks e

abbrev pub wait_mutex : Steps (Unit {0})
wait_mutex = waits (gives tt)

abbrev pub locked : World → World
locked w = record w { heap_locked = true }

-- What comes of a thread that takes its next step.
pub data Stepped (A : Type 0) : Type 1 where
  ended : A → Stepped A
  blocked : Stepped A
  faults : Fault → Stepped A
  goes : Steps A → World → Stepped A

unfoldable pub advance : {A : Type 0} → Steps A → World → Stepped A
advance (gives x) w = ended x
advance (breaks e) w = faults e
advance (waits k) w = if w.heap_locked then blocked else goes k (locked w)
advance (calls m k) w = elim (m w) [ done (b, v) ↦ goes (k b) v | crash e ↦ faults e ]

-- All the steps with no other thread between them.
unfoldable pub run : {A : Type 0} → Steps A → M A
run (gives x) w = done (x, w)
run (breaks e) w = crash e
run (waits k) w = run k (locked w)
run (calls m k) w = elim (m w) [ done (b, v) ↦ run (k b) v | crash e ↦ crash e ]
