-- ===== src/Server/Lifecycle/Ended.antt =====
-- The end of the threads after `Stop`, and when `Stop` waits for ever.
use amsserver.Server.Lifecycle.Stopped.{stopped}
use amsserver.Io.Yields.{Yields, Yields-done, Yields-bind, Yields-if}
use amsserver.Server.Iocp.{do_accept_ex}
use amsserver.Server.Lifecycle.{post_quits, waits_forever, quit, IocpServer, are_made, stop_server}
use amsserver.Server.Worker.{dispatch, worker_round, handle_recv, Completion, is_recv_or_send}
use amsserver.Io.Buffer.{recv_posted, accept_posted, null_posted, send_posted, OperationType}
use amsserver.Base.{
  refl, ◌≡◌, ◌∷◌, [], true, zero, suc, inl, inr, done, Bool, ℕ, ◌++◌, arith, ◌∙◌, ◌<◌, ◌≢◌,
  Bool-cases, ◌==◌, not, ◌&&◌, none, length, ◌≤◌, ◌-◌, ap, ◌↔◌, some, map, false, Option-cases,
}
use amsserver.Server.Worker.Thread.{Queue, run_threads, handle_all, AreKeyed, signals, queued}
use amsserver.Io.World.{
  World, M, Answers, give, >>=-done, >>=-done_inv, load_handle, load, SocketHandle,
}

-- It does not tell its thread to exit.
abbrev IsTrue : Bool → Type 0
IsTrue r = r ≡ true

module _ (do_recv : Answers → ℕ → ℕ → M Bool) where
  dispatch-IsTrue :
      (a : Answers) (k p : ℕ) (o : OperationType) (w : World)
      → Yields IsTrue (dispatch do_recv a k p o w)
  unfolding dispatch handle_recv
  dispatch-IsTrue a k p accept_posted w =
      Yields-bind IsTrue (do_accept_ex a p) (λ r. give true) w (λ r v. refl)
  dispatch-IsTrue a k p recv_posted w = Yields-bind IsTrue (do_recv a k p) _ w λ r v.
      Yields-if IsTrue r (give true) _ v refl
        (Yields-bind IsTrue (load_handle k) (λ h. give true) v (λ h u. refl))
  dispatch-IsTrue a k p send_posted w = refl
  dispatch-IsTrue a k p null_posted w = refl

  -- Only the signal to exit ends the loop.
  worker_round-IsTrue :
      (a : Answers) (c : Completion) (w : World)
      → c.key ≢ 0
      → Yields IsTrue (worker_round do_recv a c w)
  unfolding worker_round
  worker_round-IsTrue a c w n = elim (Bool-cases (c.key == 0)) [
    | inl e ↦ absurd (n (ground arith))
    | inr e ↦
        rw (e, Yields)
          (Yields-if IsTrue (not c.ok) (give true) _ w refl (
            Yields-if IsTrue (c.io == 0) (give true) _ w refl (
              Yields-bind IsTrue (load c.io) _ w λ d v.
                Yields-if IsTrue (c.bytes == 0 && is_recv_or_send d.operationtype) (give true) _ v
                  refl (dispatch-IsTrue a c.key c.io d.operationtype v))))
  ]

  run_threads-append :
      (n : ℕ) (work rest : Queue) (w v : World)
      → AreKeyed work
      → handle_all do_recv work w ≡ done (tt, v)
      → run_threads do_recv (suc n) (work ++ rest) w ≡ run_threads do_recv (suc n) rest v
  unfolding run_threads handle_all
  run_threads-append n [] rest w v k e = ground arith
  run_threads-append n ((a, c) ∷ work) rest w v (i, k) e =
      let (r, u, p, q) =
        >>=-done_inv (worker_round do_recv a c) (λ _. handle_all do_recv work) w v tt e in
      let t : r ≡ true =
        Yields-done IsTrue (worker_round do_recv a c w) r u (worker_round-IsTrue a c w i) p in
      >>=-done (worker_round do_recv a c) _ w u r p ∙ rw t (run_threads-append n work rest u v k q)

  -- Each signal ends one thread.
  run_threads-signals :
      (a : Answers) (m k : ℕ) (w : World)
      → k ≤ m
      → run_threads do_recv m (signals a k) w ≡ done (m - k, w)
  unfolding run_threads post_quits worker_round
  run_threads-signals a m zero w h = ap (λ r. done (r, w)) (omega arith)
  run_threads-signals a zero (suc k) w h = absurd (omega (arith, h))
  run_threads-signals a (suc m) (suc k) w h =
      run_threads-signals a m k w (omega (arith, h)) ∙ ap (λ r. done (r, w)) (omega arith)

  run_threads-left :
      (work : Queue) (a : Answers) (n k : ℕ) (w v : World)
      → 0 < n
      → k ≤ n
      → AreKeyed work
      → handle_all do_recv work w ≡ done (tt, v)
      → run_threads do_recv n (work ++ signals a k) w ≡ done (n - k, v)
  run_threads-left work a zero k w v h l i e = absurd (omega arith)
  run_threads-left work a (suc n) k w v h l i e =
      run_threads-append n work (signals a k) w v i e ∙ run_threads-signals a (suc n) k v l

  -- `Stop` ends all the threads. With as many signals queued as there are threads, and work queued
  -- before them that is handled without a fault, all of the work is handled and no thread runs on.
  pub run_threads-Ended :
      (work : Queue) (a : Answers) (n : ℕ) (w v : World)
      → 0 < n
      → AreKeyed work
      → handle_all do_recv work w ≡ done (tt, v)
      → run_threads do_recv n (work ++ signals a n) w ≡ done (0, v)
  run_threads-Ended work a n w v h k e =
      run_threads-left work a n n w v h (omega arith) k e ∙ ap (λ r. done (r, v)) (omega arith)

-- Every queued signal is the same one.
post_quits-all :
    (posted : ℕ → Bool) (n : ℕ)
    → (length (post_quits posted n) ≤ n)
      × (post_quits posted n ≡ post_quits (λ i. true) (length (post_quits posted n)))
unfolding post_quits
post_quits-all posted zero = (omega arith, refl)
post_quits-all posted (suc n) =
    let (l, e) = post_quits-all posted n in
    elim (Bool-cases (posted n)) [
      | inl b ↦ rw b (omega (arith, l), ap (λ t. quit ∷ t) e)
      | inr b ↦ rw b (omega (arith, l), e)
    ]

waits_forever_iff :
    (s : IocpServer) (k : ℕ)
    → s.handles_open ≡ true
    → are_made s.threadhandle ≡ true
    → (s.threadnum - k ≢ 0) ↔ (waits_forever s k ≡ true)
unfolding waits_forever
waits_forever_iff s k o m = (λ h. ground arith, λ e h. ground arith)

stop_server-returns :
    (posted : ℕ → Bool) (s : IocpServer) (v : World) (h : SocketHandle)
    → v.handles v.listenhandle ≡ some h
    → waits_forever s (length (post_quits (λ i. s.completeport && posted i) s.threadnum)) ≡ false
    → (u : World) × (stop_server posted s v ≡ done (some (stopped s), u))
unfolding stop_server load_handle
stop_server-returns posted s v h live e = elim (Option-cases h.ssocket) [
  | inl o ↦ (v, ground (arith, live, e, o))
  | inr (l, o) ↦ (record v { closed = l ∷ v.closed }, ground (arith, live, e, o))
]

stop_server-waits :
    (posted : ℕ → Bool) (s : IocpServer) (v : World) (h : SocketHandle)
    → v.handles v.listenhandle ≡ some h
    → (waits_forever s (length (post_quits (λ i. s.completeport && posted i) s.threadnum)) ≡ true)
      ↔ (stop_server posted s v ≡ done (none, v))
unfolding stop_server
stop_server-waits posted s v h live = (
  λ e. rw e refl,
  λ f.
      elim (Bool-cases
        (waits_forever s (length (post_quits (λ i. s.completeport && posted i) s.threadnum)))) [
          | inl e ↦ e
          | inr e ↦ let (u, g) = stop_server-returns posted s v h live e in cc (f, g)
        ],
)

-- `Stop` waits for ever exactly if a thread runs on when the threads have handled the work and taken the
-- signals that `Stop` has queued behind it: where the handles of the threads are open and all of
-- them were made, and the work is handled without a fault.
pub stop_server-waits_iff :
    (do_recv : Answers → ℕ → ℕ → M Bool) (posted : ℕ → Bool) (s : IocpServer) (work : Queue)
    (a : Answers) (w v : World) (h : SocketHandle)
    → s.handles_open ≡ true
    → are_made s.threadhandle ≡ true
    → 0 < s.threadnum
    → AreKeyed work
    → handle_all do_recv work w ≡ done (tt, v)
    → v.handles v.listenhandle ≡ some h
    → (left : ℕ) × (run_threads do_recv s.threadnum
          (work ++ queued a (λ i. s.completeport && posted i) s.threadnum)
          w
        ≡ done (left, v))
      × ((left ≢ 0) ↔ (stop_server posted s v ≡ done (none, v)))
stop_server-waits_iff do_recv posted s work a w v h o m n k e live =
    let p : ℕ → Bool = λ i. s.completeport && posted i in
    let (l, q) = post_quits-all p s.threadnum in
    let (to, from) = waits_forever_iff s (length (post_quits p s.threadnum)) o m in
    let (stop, go) = stop_server-waits posted s v h live in
    (
      s.threadnum - length (post_quits p s.threadnum),
      ap (λ t. run_threads do_recv s.threadnum (work ++ map (λ c. (a, c)) t) w) q
          ∙ run_threads-left do_recv work a s.threadnum (length (post_quits p s.threadnum)) w v n l
              k e,
      (λ i. stop (to i), λ f. from (go f)),
    )
