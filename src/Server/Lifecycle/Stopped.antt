-- ===== src/Server/Lifecycle/Stopped.antt =====
-- What a stop leaves, and a second one.
use amsserver.Server.Worker.{worker_round}
use amsserver.Base.{
  refl, ◌≡◌, ◌∷◌, none, some, true, false, zero, suc, done, ℕ, Bool, length, arith, ap, ◌&&◌,
  replicate, List, ◌++◌, ◌∙◌,
}
use amsserver.Server.Lifecycle.{
  IocpServer, stop_server, post_quits, quit, waits_forever, delete_listen_handle,
}
use amsserver.Io.World.{◌>>=◌, World, SocketHandle, Answers, M, load_handle, update, >>=-done, give}

length-post_quits :
    (posted : ℕ → Bool) (n : ℕ) → ((i : ℕ) → posted i ≡ true) → length (post_quits posted n) ≡ n
unfolding post_quits
length-post_quits posted zero h = refl
length-post_quits posted (suc n) h = rw (h n) (ap suc (length-post_quits posted n h))

-- The server after a stop.
abbrev pub stopped : IocpServer → IocpServer
stopped s = record s { completeport = false; handles_open = false }

stop_server-closes :
    (posted : ℕ → Bool) (s : IocpServer) (w : World) (h : SocketHandle) (l : ℕ)
    → s.completeport ≡ true
    → ((i : ℕ) → posted i ≡ true)
    → w.handles w.listenhandle ≡ some h
    → h.ssocket ≡ some l
    → stop_server posted s w ≡ done (some (stopped s), record w { closed = l ∷ w.closed })
unfolding stop_server load_handle waits_forever
stop_server-closes posted s w h l port p live e = ground (
  arith,
  live,
  e,
  length-post_quits (λ i. s.completeport && posted i) s.threadnum (λ i. ground (arith, p i)),
)

-- `Stop` of an open port with every signal queued returns: the listening socket is closed, and the
-- port and the handles of the threads are. The signal ends the round of any worker, in any world,
-- with FALSE for `keeprunning`.
pub stop_server-Stopped :
    (posted : ℕ → Bool) (s : IocpServer) (w : World) (h : SocketHandle) (l : ℕ)
    (do_recv : Answers → ℕ → ℕ → M Bool) (a : Answers) (v : World)
    → s.completeport ≡ true
    → ((i : ℕ) → posted i ≡ true)
    → w.handles w.listenhandle ≡ some h
    → h.ssocket ≡ some l
    → (stop_server posted s w ≡ done (some (stopped s), record w { closed = l ∷ w.closed }))
      × (worker_round do_recv a quit v ≡ done (false, v))
unfolding worker_round
stop_server-Stopped posted s w h l do_recv a v port p live e =
    (stop_server-closes posted s w h l port p live e, refl)

-- A second `Stop` returns, too, whatever is queued, and closes the listening socket once more.
stop_server-again :
    (posted : ℕ → Bool) (s : IocpServer) (w : World) (h : SocketHandle) (l : ℕ)
    → w.handles w.listenhandle ≡ some h
    → h.ssocket ≡ some l
    → stop_server posted (stopped s) w ≡ done (some (stopped s), record w { closed = l ∷ w.closed })
unfolding stop_server load_handle waits_forever
stop_server-again posted s w h l live e = ground (arith, live, e)

-- So many calls of `Stop`, and then the destructor; `posted` tells of each call which signals are
-- queued. The result is whether all the calls of `Stop` return.
unfoldable pub shut_down : (ℕ → ℕ → Bool) → ℕ → IocpServer → M Bool
shut_down posted zero s = do _ ← delete_listen_handle; give true
shut_down posted (suc n) s = do
  stopped ← stop_server (posted n) s
  elim stopped [ none ↦ give false | some t ↦ shut_down posted n t ]

-- The world after the socket was closed so often.
abbrev pub with_closed : ℕ → ℕ → World → World
with_closed n l w = record w { closed = replicate n l ++ w.closed }

abbrev pub without_listener : World → World
without_listener w = record w { handles = update w.handles w.listenhandle none }

replicate-suc : (n l : ℕ) (xs : List ℕ) → replicate n l ++ l ∷ xs ≡ l ∷ (replicate n l ++ xs)
replicate-suc zero l xs = refl
replicate-suc (suc n) l xs = ap (λ t. l ∷ t) (replicate-suc n l xs)

shut_down-stopped :
    (posted : ℕ → ℕ → Bool) (n : ℕ) (s : IocpServer) (w : World) (h : SocketHandle) (l : ℕ)
    → w.handles w.listenhandle ≡ some h
    → h.ssocket ≡ some l
    → shut_down posted n (stopped s) w ≡ done (true, without_listener (with_closed (suc n) l w))
unfolding shut_down delete_listen_handle load_handle
shut_down-stopped posted zero s w h l live e = ground (arith, live, e)
shut_down-stopped posted (suc n) s w h l live e =
    >>=-done (stop_server (posted n) (stopped s)) _ w (record w { closed = l ∷ w.closed })
      (some (stopped s)) (stop_server-again (posted n) s w h l live e)
    ∙ shut_down-stopped posted n s (record w { closed = l ∷ w.closed }) h l live e
    ∙ ap (λ c. done (true, record (without_listener w) { closed = l ∷ c }))
        (replicate-suc n l w.closed)

-- A server that is stopped `n + 1` times and then deleted closes the listening socket `n + 2` times, if
-- the port is open and the first `Stop` has every signal queued: so after one `Stop` the destructor
-- closes it again. Each further `Stop` returns, whatever is queued.
pub shut_down-closes :
    (posted : ℕ → ℕ → Bool) (n : ℕ) (s : IocpServer) (w : World) (h : SocketHandle) (l : ℕ)
    → s.completeport ≡ true
    → ((i : ℕ) → posted n i ≡ true)
    → w.handles w.listenhandle ≡ some h
    → h.ssocket ≡ some l
    → shut_down posted (suc n) s w ≡ done (true, without_listener (with_closed (suc (suc n)) l w))
unfolding shut_down
shut_down-closes posted n s w h l port p live e =
    >>=-done (stop_server (posted n) s) _ w (record w { closed = l ∷ w.closed }) (some (stopped s))
      (stop_server-closes (posted n) s w h l port p live e)
    ∙ shut_down-stopped posted n s (record w { closed = l ∷ w.closed }) h l live e
    ∙ ap (λ c. done (true, record (without_listener w) { closed = l ∷ c }))
        (replicate-suc n l w.closed)
