-- ===== src/Server/Worker/History.antt =====
-- Any sequence of completions, handled by the workers of HttpServer.
use amsserver.Server.Worker.Handlers.{worker_round-Keeps}
use mathlib.Core.Path.{subst}
use amsserver.Server.HttpRecv.{http_do_recv}
use amsserver.Server.Worker.{Completion, worker_round}
use amsserver.Base.{refl, ◌≡◌, none, some, inl, inr, done, Bytes, ℕ, ◌≢◌, Bool, ◌∙◌, sym}
use amsserver.Server.Worker.Kept.{Kept, Has, After}
use amsserver.Io.World.{World, Answers}

-- The worlds that rounds of the workers lead to. For each round the system completes some operation
-- and answers the calls of the handler in any way, but that WSASocket does not give the socket `s`,
-- which is in use.
pub data Runs (sizes : Bytes → ℕ) (s : ℕ) (w : World) : World → Type 0 where
  begin : (v : World) → v ≡ w → Runs sizes s w v
  round :
      {u v : World} (a : Answers) (c : Completion) (keeprunning : Bool)
      → Runs sizes s w u
      → a.wsa_socket ≢ some s
      → worker_round (http_do_recv sizes) a c u ≡ done (keeprunning, v)
      → Runs sizes s w v

-- What holds of a handle, a socket and the listening handle after such a sequence.
pub record Stays (s k : ℕ) (w v : World) : Type 0 where
  pub handle_there : v.handles k ≢ none
  pub still_open : ¬ Has s v.closed
  pub listener : v.listenhandle ≡ w.listenhandle

worker_round-Stays :
    (sizes : Bytes → ℕ) (s k : ℕ) (w u v : World) (a : Answers) (c : Completion) (r : Bool)
    → a.wsa_socket ≢ some s
    → worker_round (http_do_recv sizes) a c u ≡ done (r, v)
    → Stays s k w u
    → Stays s k w v
worker_round-Stays sizes s k w u v a c r n e h =
    let q : Kept a u v = subst (λ o. After o (Kept a u)) e (worker_round-Keeps a sizes c u) in
    record {
      handle_there = q.handles_stay k h.handle_there;
      still_open = λ i. elim (q.closed_new s i) [ inl j ↦ h.still_open j | inr f ↦ n f ];
      listener = q.listener ∙ h.listener;
    }

-- Over any sequence of rounds that return, a handle is never released, an open socket that
-- WSASocket does not give again is never closed, and the listening handle stays the same.
pub Runs-Stays :
    (sizes : Bytes → ℕ) (s k : ℕ) (w v : World)
    → w.handles k ≢ none
    → ¬ Has s w.closed
    → Runs sizes s w v
    → Stays s k w v
Runs-Stays sizes s k w _ h o (begin v e) =
    subst (Stays s k w) (sym e) (record { handle_there = h; still_open = o; listener = refl })
Runs-Stays sizes s k w v h o (round {u} a c r p n e) =
    worker_round-Stays sizes s k w u v a c r n e (Runs-Stays sizes s k w u h o p)
