-- ===== src/Server/Lifecycle/Started.antt =====
-- What a start and a stop leave.

use native.Mathlib.Decide.{ℕ_discrete}
use amsserver.Server.Iocp.{post_accept_ex}
use amsserver.Io.Buffer.{accept_posted, new_io, prepare}
use amsserver.Base.{
  refl, ◌≡◌, ◌∷◌, [], some, true, zero, suc, ℕ, List, ◌++◌, ◌∙◌, ◌≢◌, ◌+◌, sym, Returns, ◌≤◌,
  append_assoc, arith, ◌<◌, Returns-eq, Returns-mono, if◌then◌else◌, ltb, length, none, false, inl,
  inr, Returns-done, ◌&&◌, ◌⊎◌,
}
use amsserver.Server.Lifecycle.{
  StartAnswers, IocpServer, post_accepts, begin_threads, start_server, start_listen,
  initialize_socket, max_post_accept, are_made,
}
use amsserver.Io.World.{
  World, SocketHandle, Answers, update, Pending, load, store, start_operation, get_new_io_data,
  load_handle, store_handle, give,
}
use amsserver.Io.World.{◌>>=◌, >>=-done}

-- The system grants each call, those of the accepts included.
pub record IsGranted (a : StartAnswers) : Type 0 where
  pub port : a.create_port ≡ true
  pub listen : (s : ℕ) × (a.listen_socket ≡ some s)
  pub associated : a.associate_listen ≡ true
  pub reused : a.set_reuse_addr ≡ true
  pub bound : a.bind_port ≡ true
  pub listening : a.listen_started ≡ true
  pub accept_ex_found : a.ioctl_accept_ex ≡ true
  pub sockaddrs_found : a.ioctl_sockaddrs ≡ true
  pub accept_sockets : (i : ℕ) → (s : ℕ) × ((a.accepts i).wsa_socket ≡ some s)
  pub accepted : (i : ℕ) → (a.accepts i).accept_ex ≡ true

-- The accepts on the ios from `first` on, the last started first.
abbrev pub accepts_from : ℕ → ℕ → ℕ → List Pending
accepts_from key first zero = []
accepts_from key first (suc n) =
    accepts_from key (suc first) n ++ record { key = key; io = first; kind = accept_posted } ∷ []

-- Accepts are pending on `n` new ios, each of them live.
pub record Posted (n : ℕ) (w v : World) : Type 0 where
  pub operations : v.pending ≡ accepts_from w.listenhandle w.next_io n ++ w.pending
  pub next : v.next_io ≡ w.next_io + n
  pub ready :
      (i : ℕ)
      → w.next_io ≤ i
      → i < w.next_io + n
      → (s : ℕ) × (v.ios i ≡ some (prepare accept_posted (record new_io { acceptsocket = some s })))
  pub older : (i : ℕ) → i < w.next_io → v.ios i ≡ w.ios i
  pub listener : (v.listenhandle ≡ w.listenhandle) × (v.handles ≡ w.handles)

-- The world after one accept is posted.
abbrev with_accept : ℕ → World → World
with_accept s w = record w {
  ios =
      update
        (update (update w.ios w.next_io (some new_io)) w.next_io
          (some (record new_io { acceptsocket = some s })))
        w.next_io (some (prepare accept_posted (record new_io { acceptsocket = some s })));
  next_io = suc w.next_io;
  pending = record { key = w.listenhandle; io = w.next_io; kind = accept_posted } ∷ w.pending;
}

post_accepts-next :
    (answers : ℕ → Answers) (n s : ℕ) (w : World)
    → w.next_io ≢ 0
    → (answers n).wsa_socket ≡ some s
    → (answers n).accept_ex ≡ true
    → post_accepts answers (suc n) w ≡ post_accepts answers n (with_accept s w)
unfolding post_accepts post_accept_ex load store start_operation get_new_io_data
post_accepts-next answers n s w h e f = ground arith

with_accept-Posted : (n s : ℕ) (w v : World) → Posted n (with_accept s w) v → Posted (suc n) w v
with_accept-Posted n s w v p = record {
  operations =
      p.operations ∙ sym (append_assoc (accepts_from w.listenhandle (suc w.next_io) n) _ w.pending);
  next = omega (arith, p.next);
  ready = λ i l u. elim (ℕ_discrete i w.next_io) [
    | yes e ↦ (s, ground (arith, p.older i))
    | no d ↦ p.ready i (omega arith) (omega arith)
  ];
  older = λ i l. ground (arith, p.older i);
  listener = p.listener;
}

post_accepts-Posted :
    (answers : ℕ → Answers) (n : ℕ) (w : World)
    → w.next_io ≢ 0
    → ((i : ℕ) → (s : ℕ) × ((answers i).wsa_socket ≡ some s))
    → ((i : ℕ) → (answers i).accept_ex ≡ true)
    → Returns (post_accepts answers n w) (λ (u, v). Posted n w v)
unfolding post_accepts
post_accepts-Posted answers zero w h sockets starts = record {
  operations = refl;
  next = omega arith;
  ready = λ i l u. ground arith;
  older = λ i l. refl;
  listener = (refl, refl);
}
post_accepts-Posted answers (suc n) w h sockets starts =
    let (s, e) = sockets n in
    rw (post_accepts-next answers n s w h e (starts n)) (
      Returns-mono _ _ _
        (post_accepts-Posted answers n (with_accept s w) (omega arith) sockets starts)
        (λ (u, v) p. with_accept-Posted n s w v p))

abbrev pub thread_count : ℕ → ℕ
thread_count processors = if ltb processors 8 then processors else 8

pub length-begin_threads :
    (begin_thread : ℕ → ℕ) (i n : ℕ) → length (begin_threads begin_thread i n) ≡ n
unfolding begin_threads
length-begin_threads begin_thread i zero = refl
length-begin_threads begin_thread i (suc n) =
    ground (arith, length-begin_threads begin_thread (suc i) n)

-- The world in which the listening handle has its socket.
abbrev pub listening : StartAnswers → SocketHandle → World → World
listening a h w = record w {
  handles = update w.handles w.listenhandle (some (record h { ssocket = a.listen_socket }));
}

-- The server that has started.
abbrev pub started : StartAnswers → IocpServer
started a = record {
  completeport = true;
  threadnum = thread_count a.number_of_processors;
  threadhandle = begin_threads a.begin_thread 0 (thread_count a.number_of_processors);
  handles_open = are_made (begin_threads a.begin_thread 0 (thread_count a.number_of_processors));
  lpfnacceptex = true;
  lpfngetacceptexsockaddrs = true;
}

module _ (a : StartAnswers) (s : IocpServer) (w : World) (h : SocketHandle)
    (live : w.handles w.listenhandle ≡ some h) where
  start_server-accepts :
      IsGranted a
      → start_server a s w
        ≡ (post_accepts a.accepts max_post_accept >>= λ _. give (started a, true)) (listening a h w)
  unfolding start_server start_listen initialize_socket load_handle store_handle
  start_server-accepts g =
      let (l, e) = g.listen in
      ground (
        arith, live, e, g.port, g.associated, g.reused, g.bound, g.listening, g.accept_ex_found,
        g.sockaddrs_found,
      )

  -- `Start` with every call granted returns TRUE: as many threads run as there are processors, at
  -- most eight, the listening handle has its socket, and a hundred accepts are pending, each on a
  -- live io of its own.
  pub start_server-Started :
      w.next_io ≢ 0
      → IsGranted a
      → Returns (start_server a s w) (λ ((t, r), v).
        (r ≡ true)
        × (t.threadnum ≡ thread_count a.number_of_processors)
        × (length t.threadhandle ≡ t.threadnum)
        × Posted 100 (listening a h w) v)
  start_server-Started n g =
      let ((u, v), e, p) =
        Returns-done (post_accepts a.accepts 100 (listening a h w))
          (λ (u, v). Posted 100 (listening a h w) v)
          (post_accepts-Posted a.accepts 100 (listening a h w) n g.accept_sockets g.accepted) in
      Returns-eq _ _ ((started a, true), v)
        (start_server-accepts g
          ∙ >>=-done (post_accepts a.accepts 100) (λ _. give (started a, true)) (listening a h w) v
              u e)
        (refl, refl, length-begin_threads a.begin_thread 0 (thread_count a.number_of_processors), p)

  -- `Start` with a call refused, before the accepts, returns FALSE with no accept posted. If the
  -- completion port was made, it stays open, and so do the handles of the threads that were started, one
  -- for each processor, at most eight, if all of them were made. If not, the port is closed, and the
  -- threads and their handles are as before.
  pub start_server-refused :
      (a.create_port
            && (a.associate_listen
                && (a.set_reuse_addr
                    && (a.bind_port
                        && (a.listen_started && (a.ioctl_accept_ex && a.ioctl_sockaddrs)))))
          ≡ false)
        ⊎ (a.listen_socket ≡ none)
      → Returns (start_server a s w) (λ ((t, r), v).
        (r ≡ false)
        × (v.pending ≡ w.pending)
        × (v.ios ≡ w.ios)
        × (t.completeport ≡ a.create_port)
        × (t.threadnum
            ≡ (if a.create_port then thread_count a.number_of_processors else s.threadnum))
        × (t.threadhandle ≡ (
            if a.create_port
            then begin_threads a.begin_thread 0 (thread_count a.number_of_processors)
            else s.threadhandle))
        × (t.handles_open ≡ (
            if a.create_port
            then are_made (begin_threads a.begin_thread 0 (thread_count a.number_of_processors))
            else s.handles_open)))
  unfolding start_server start_listen initialize_socket load_handle store_handle
  start_server-refused (inl e) = ground (arith, live)
  start_server-refused (inr e) = ground (arith, live)
