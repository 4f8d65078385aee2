-- ===== src/Server/Lifecycle.antt =====
-- `IOCPServer::Start` and `IOCPServer::Stop`: the completion port with its worker threads, the
-- listening socket, the first accepts, and the end of all of them.
pub mod Started
pub mod Opened
pub mod Stopped
pub mod Ended
use amsserver.Server.Worker.{Completion}
use amsserver.Server.Iocp.{close_socket, post_accept_ex}
use amsserver.Base.{
  if◌then◌else◌, ◌∷◌, [], none, some, true, false, zero, suc, done, ℕ, Bool, Option, List, not,
  Outcome, ltb, ◌&&◌, length, ◌==◌,
}
use amsserver.Io.World.{
  M, World, SocketHandle, Answers, give, ◌>>=◌, ◌>>◌, load_handle, store_handle, get_new_io_data,
  modify, update,
}

abbrev pub max_thread_num : ℕ
max_thread_num = 8

abbrev pub max_post_accept : ℕ
max_post_accept = 100

-- What the system answers during `Start`: whether each call succeeds, the handle of each thread (0
-- if it is not made), and the answers to the calls of each posted accept.
pub record StartAnswers : Type 0 where
  pub create_port : Bool
  pub number_of_processors : ℕ
  pub begin_thread : ℕ → ℕ
  pub listen_socket : Option ℕ
  pub associate_listen : Bool
  pub set_reuse_addr : Bool
  pub bind_port : Bool
  pub listen_started : Bool
  pub ioctl_accept_ex : Bool
  pub ioctl_sockaddrs : Bool
  pub accepts : ℕ → Answers

-- The members of the class besides the listening handle, which stands in the world.
pub record IocpServer : Type 0 where
  pub completeport : Bool
  pub threadnum : ℕ
  pub threadhandle : List ℕ
  -- Whether every handle of `threadhandle` is open. The system knows it; the class has no such member.
  pub handles_open : Bool
  pub lpfnacceptex : Bool
  pub lpfngetacceptexsockaddrs : Bool

-- The constructor, whose WSAStartup has succeeded.
abbrev pub new_server : IocpServer
new_server = record {
  completeport = false;
  threadnum = 0;
  threadhandle = [];
  handles_open = false;
  lpfnacceptex = false;
  lpfngetacceptexsockaddrs = false;
}

-- The handles of the threads from `i` on.
unfoldable pub begin_threads : (ℕ → ℕ) → ℕ → ℕ → List ℕ
begin_threads begin_thread i zero = []
begin_threads begin_thread i (suc n) = begin_thread i ∷ begin_threads begin_thread (suc i) n

-- Whether no handle is 0.
unfoldable pub are_made : List ℕ → Bool
are_made [] = true
are_made (h ∷ handles) = not (h == 0) && are_made handles

unfoldable pub initialize_iocp : StartAnswers → IocpServer → IocpServer × Bool
unfolding are_made
initialize_iocp a s =
    if not a.create_port
    then (record s { completeport = false }, false)
    else let n =
        if ltb a.number_of_processors max_thread_num
        then a.number_of_processors
        else max_thread_num in
      (
        record s {
          completeport = true;
          threadnum = n;
          threadhandle = begin_threads a.begin_thread 0 n;
          handles_open = are_made (begin_threads a.begin_thread 0 n);
        },
        true,
      )

-- The listening socket is closed where a call after the association fails.
unfoldable pub prepare_listen : StartAnswers → Option ℕ → M Bool
unfolding close_socket
prepare_listen a ssocket =
    if not a.associate_listen
    then give false
    else if a.set_reuse_addr && (a.bind_port && a.listen_started)
    then give true
    else do close_socket ssocket; give false

unfoldable pub initialize_socket : StartAnswers → M Bool
unfolding prepare_listen
initialize_socket a w =
    (do
      h ← load_handle w.listenhandle
      store_handle w.listenhandle (record h { ssocket = a.listen_socket })
      elim a.listen_socket [ none ↦ give false | some ssocket ↦ prepare_listen a (some ssocket) ])
      w

unfoldable pub get_accept_ex_fuction : StartAnswers → IocpServer → Option ℕ → IocpServer × Bool
get_accept_ex_fuction a s none = (s, false)
get_accept_ex_fuction a s (some ssocket) =
    if not a.ioctl_accept_ex
    then (s, false)
    else if not a.ioctl_sockaddrs
    then (record s { lpfnacceptex = true }, false)
    else (record s { lpfnacceptex = true; lpfngetacceptexsockaddrs = true }, true)

-- The loop of `Start`, with so many accepts to post.
unfoldable pub post_accepts : (ℕ → Answers) → ℕ → M (Unit {0})
post_accepts answers zero = give tt
post_accepts answers (suc n) = do
  listeniodata ← get_new_io_data
  post_accept_ex (answers n) listeniodata
  post_accepts answers n

-- `Start` with the port and the threads.
unfoldable pub start_listen : StartAnswers → IocpServer → M (IocpServer × Bool)
unfolding get_accept_ex_fuction
start_listen a s = do
  initialized ← initialize_socket a
  if not initialized then give (s, false) else (do
    h ← (λ w. load_handle w.listenhandle w)
    let (t, found) = get_accept_ex_fuction a s h.ssocket
    if not found
        then give (t, false)
        else (do post_accepts a.accepts max_post_accept; give (t, true)))

-- `IOCPServer::Start`
unfoldable pub start_server : StartAnswers → IocpServer → M (IocpServer × Bool)
unfolding initialize_iocp
start_server a s =
    let (t, initialized) = initialize_iocp a s in
    if not initialized then give (t, false) else start_listen a t

-- The completion that PostQueuedCompletionStatus queues for a worker to exit.
abbrev pub quit : Completion
quit = record { ok = true; key = 0; io = 0; bytes = 0 }

-- The signals that are queued, `posted` telling which calls succeed.
unfoldable pub post_quits : (ℕ → Bool) → ℕ → List Completion
post_quits posted zero = []
post_quits posted (suc n) = let rest = post_quits posted n in if posted n then quit ∷ rest else rest

-- Whether WaitForMultipleObjects on the handles of the threads never returns, if so many signals are
-- queued: each signal ends one thread. With no handle, or one that is not open, the call fails at once.
unfoldable pub waits_forever : IocpServer → ℕ → Bool
unfolding are_made
waits_forever s signals =
    s.handles_open
    && (not (s.threadnum == 0) && (are_made s.threadhandle && ltb signals s.threadnum))

-- `IOCPServer::Stop`; `none` where it waits for ever. Nothing is queued to a port that is closed.
unfoldable pub stop_server : (ℕ → Bool) → IocpServer → M (Option IocpServer)
unfolding close_socket post_quits waits_forever
stop_server posted s =
    if waits_forever s (length (post_quits (λ i. s.completeport && posted i) s.threadnum))
    then give none
    else do
      h ← (λ w. load_handle w.listenhandle w)
      close_socket h.ssocket
      give (some (record s { completeport = false; handles_open = false }))

-- `delete listenhandle` in the destructor of IOCPServer, with that of SocketHandle.
unfoldable pub delete_listen_handle : M (Unit {0})
unfolding close_socket
delete_listen_handle w =
    (do
      h ← load_handle w.listenhandle
      close_socket h.ssocket
      modify (λ v. record v { handles = update v.handles w.listenhandle none }))
      w
