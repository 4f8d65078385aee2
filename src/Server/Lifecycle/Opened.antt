-- ===== src/Server/Lifecycle/Opened.antt =====
-- What a start that returns TRUE has opened.
use amsserver.Server.Lifecycle.Started.{thread_count, length-begin_threads}
use amsserver.Base.{
  none, some, true, false, ◌≡◌, Bool, Option, not, ℕ, arith, inl, inr, Bool-cases, length,
}
use amsserver.Server.Lifecycle.{
  IocpServer, StartAnswers, start_server, start_listen, initialize_socket, get_accept_ex_fuction,
  initialize_iocp, post_accepts, max_post_accept, are_made,
}
use amsserver.Io.World.{World, load_handle, give}
use amsserver.Io.Yields.{Yields, Yields-bind, Yields-if}

-- On a machine with so many processors: one thread for each, at most eight, and each with its handle. The
-- handles are open if all of them were made.
pub record HasThreads (processors : ℕ) (s : IocpServer) : Type 0 where
  pub count : s.threadnum ≡ thread_count processors
  pub one_handle_each : length s.threadhandle ≡ s.threadnum
  pub handles : s.handles_open ≡ are_made s.threadhandle

-- The port is open, with its threads and the two functions of the socket library.
pub record IsOpen (processors : ℕ) (s : IocpServer) : Type 0 where
  pub port : s.completeport ≡ true
  pub threads : HasThreads processors s
  pub accept_ex : s.lpfnacceptex ≡ true
  pub sockaddrs : s.lpfngetacceptexsockaddrs ≡ true

module _ (processors : ℕ) where
  -- Of what `Start` returns.
  abbrev pub OpenIfTrue : IocpServer × Bool → Type 0
  OpenIfTrue (s, r) = r ≡ true → IsOpen processors s

  get_accept_ex_fuction-IsOpen :
      (a : StartAnswers) (s : IocpServer) (o : Option ℕ)
      → s.completeport ≡ true
      → HasThreads processors s
      → OpenIfTrue (get_accept_ex_fuction a s o)
  unfolding get_accept_ex_fuction
  get_accept_ex_fuction-IsOpen a s none p t e = cc
  get_accept_ex_fuction-IsOpen a s (some l) p t e = record {
    port = ground arith;
    threads = record {
      count = ground (arith, t.count);
      one_handle_each = ground (arith, t.one_handle_each);
      handles = ground (arith, t.handles);
    };
    accept_ex = ground arith;
    sockaddrs = ground arith;
  }

  start_listen-IsOpen :
      (a : StartAnswers) (s : IocpServer) (w : World)
      → s.completeport ≡ true
      → HasThreads processors s
      → Yields OpenIfTrue (start_listen a s w)
  unfolding start_listen
  start_listen-IsOpen a s w p t = Yields-bind OpenIfTrue (initialize_socket a) _ w λ i v.
      Yields-if OpenIfTrue (not i) (give (s, false)) _ v (λ e. cc)
        (Yields-bind OpenIfTrue (λ u. load_handle u.listenhandle u) _ v
          λ h u. elim (Bool-cases (get_accept_ex_fuction a s h.ssocket).1) [
            | inl e ↦
                Yields-if OpenIfTrue (not (get_accept_ex_fuction a s h.ssocket).1)
                  (give ((get_accept_ex_fuction a s h.ssocket).0, false)) _ u (λ f. cc)
                  (Yields-bind OpenIfTrue (post_accepts a.accepts max_post_accept) _ u
                    (λ x y f. get_accept_ex_fuction-IsOpen a s h.ssocket p t e))
            | inr e ↦ rw (e, Yields) (λ f. cc)
          ])

  initialize_iocp-opens :
      (a : StartAnswers) (s : IocpServer)
      → a.number_of_processors ≡ processors
      → (initialize_iocp a s).1 ≡ true
      → ((initialize_iocp a s).0.completeport ≡ true)
        × HasThreads processors (initialize_iocp a s).0
  unfolding initialize_iocp
  initialize_iocp-opens a s n e = (
    ground arith,
    record {
      count = ground (arith, n);
      one_handle_each =
          ground
            (arith, length-begin_threads a.begin_thread 0 (thread_count a.number_of_processors));
      handles = ground arith;
    },
  )

  pub start_server-IsOpen :
      (a : StartAnswers) (s : IocpServer) (w : World)
      → a.number_of_processors ≡ processors
      → Yields OpenIfTrue (start_server a s w)
  unfolding start_server
  start_server-IsOpen a s w n = elim (Bool-cases (initialize_iocp a s).1) [
    | inl e ↦
        let (p, t) = initialize_iocp-opens a s n e in
        Yields-if OpenIfTrue (not (initialize_iocp a s).1) (give ((initialize_iocp a s).0, false)) _
          w (λ f. cc) (start_listen-IsOpen a (initialize_iocp a s).0 w p t)
    | inr e ↦ rw (e, Yields) (λ f. cc)
  ]
