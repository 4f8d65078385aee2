-- ===== src/Server/Worker/Thread.antt =====
-- The loop of `WorkerThread`, and the threads of the server on one queue of completions. Each
-- completion stands with the answers that its handler gets. Rounds are taken in the order of the queue.
use amsserver.Server.Lifecycle.{post_quits}
use amsserver.Server.Worker.{Completion, worker_round}
use amsserver.Base.{if◌then◌else◌, ◌∷◌, [], true, zero, suc, List, ℕ, ◌≢◌, Bool, map}
use amsserver.Io.World.{M, Answers, give, ◌>>=◌}

abbrev pub Queue : Type 0
Queue = List (Answers × Completion)

module _ (do_recv : Answers → ℕ → ℕ → M Bool) where
  -- So many threads run the loop, and whichever waits takes the next completion. The threads are
  -- alike, so their number tells all of them; the result is how many still run at the end of the queue.
  unfoldable pub run_threads : ℕ → Queue → M ℕ
  run_threads n [] = give n
  run_threads zero ((a, c) ∷ queue) = give 0
  run_threads (suc n) ((a, c) ∷ queue) = do
    keeprunning ← worker_round do_recv a c
    run_threads (if keeprunning then suc n else n) queue

  -- The rounds of a queue, each with its result dropped.
  unfoldable pub handle_all : Queue → M (Unit {0})
  handle_all [] = give tt
  handle_all ((a, c) ∷ queue) = do _ ← worker_round do_recv a c; handle_all queue

-- None of the completions is the signal to exit.
abbrev pub AreKeyed : Queue → Type 0
AreKeyed [] = Unit {0}
AreKeyed ((a, c) ∷ queue) = (c.key ≢ 0) × AreKeyed queue

-- The signals of `Stop` in the queue, `posted` telling which calls succeed.
abbrev pub queued : Answers → (ℕ → Bool) → ℕ → Queue
queued a posted n = map (λ c. (a, c)) (post_quits posted n)

abbrev pub signals : Answers → ℕ → Queue
signals a n = queued a (λ i. true) n
