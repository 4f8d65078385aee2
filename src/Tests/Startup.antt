-- ===== src/Tests/Startup.antt =====
-- Tests of the start and the end of the server.
use amsserver.Server.HttpRecv.{http_do_recv}
use amsserver.Server.Worker.{worker_round}
use amsserver.Io.Buffer.{new_io}
use amsserver.Server.Lifecycle.Started.{
  IsGranted, started, start_server-refused, Posted, listening, start_server-Started,
}
use amsserver.Server.Lifecycle.Stopped.{
  stopped, stop_server-Stopped, shut_down, shut_down-closes, without_listener,
}
use amsserver.Server.Lifecycle.{
  StartAnswers, stop_server, start_server, new_server, quit, begin_threads, are_made,
}
use amsserver.Io.World.{World}
use amsserver.Base.{refl, ◌≡◌, ◌∷◌, [], some, true, false, inl, done, Returns, ◌+◌, length, arith}
use amsserver.Tests.{with_io, willing, peer, large}

-- Four processors, and nothing refused.
abbrev pub calm : StartAnswers
calm = record {
  create_port = true;
  number_of_processors = 4;
  begin_thread = λ i. 50 + i;
  listen_socket = some 9;
  associate_listen = true;
  set_reuse_addr = true;
  bind_port = true;
  listen_started = true;
  ioctl_accept_ex = true;
  ioctl_sockaddrs = true;
  accepts = λ i. record willing { wsa_socket = some (60 + i) };
}

-- The port is in use.
abbrev in_use : StartAnswers
in_use = record calm { bind_port = false }

-- The listening handle is at 7.
abbrev pub idle : World
idle = record (with_io new_io) { listenhandle = 7 }

calm-IsGranted : IsGranted calm
calm-IsGranted = record {
  port = refl;
  listen = (9, refl);
  associated = refl;
  reused = refl;
  bound = refl;
  listening = refl;
  accept_ex_found = refl;
  sockaddrs_found = refl;
  accept_sockets = λ i. (60 + i, refl);
  accepted = λ i. refl;
}

start_server-Started_example : Returns (start_server calm new_server idle) (λ ((t, r), v).
    (r ≡ true)
    × (t.threadnum ≡ 4)
    × (length t.threadhandle ≡ t.threadnum)
    × Posted 100 (listening calm peer idle) v)
start_server-Started_example =
    start_server-Started calm new_server idle peer refl (ground arith) calm-IsGranted

start_server-refused_example : Returns (start_server in_use new_server idle) (λ ((t, r), v).
    (r ≡ false)
    × (v.pending ≡ [])
    × (v.ios ≡ idle.ios)
    × (t.completeport ≡ true)
    × (t.threadnum ≡ 4)
    × (t.threadhandle ≡ 50 ∷ 51 ∷ 52 ∷ 53 ∷ [])
    × (t.handles_open ≡ true))
unfolding begin_threads are_made
start_server-refused_example = start_server-refused in_use new_server idle peer refl (inl refl)

stop_server-Stopped_example :
    (stop_server (λ i. true) (started calm) idle
      ≡ done (some (stopped (started calm)), record idle { closed = 5 ∷ [] }))
    × (worker_round (http_do_recv large) willing quit idle ≡ done (false, idle))
stop_server-Stopped_example =
    stop_server-Stopped (λ i. true) (started calm) idle peer 5 (http_do_recv large) willing idle
      refl (λ i. refl) refl refl

-- One `Stop`, and the destructor.
shut_down-closes_example :
    shut_down (λ n i. true) 1 (started calm) idle
    ≡ done (true, record (without_listener idle) { closed = 5 ∷ 5 ∷ [] })
shut_down-closes_example =
    shut_down-closes (λ n i. true) 0 (started calm) idle peer 5 refl (λ i. refl) refl refl
