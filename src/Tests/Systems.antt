-- ===== src/Tests/Systems.antt =====
-- Tests of the server as a whole: a process with a receive and a send pending.
use amsserver.Server.Interleaved.Started.{IsReady, start_server-IsReady}
use amsserver.Server.Interleaved.Own.{Steady}
use amsserver.Base.{
  refl, ◌≡◌, ◌∷◌, [], true, crash, arith, use_after_free, ◌↔◌, some, false, done, length, none, ℕ,
  ◌++◌, ◌&&◌, ltb, ◌≢◌,
}
use amsserver.Server.System.Sound.{Sound}
use amsserver.Server.System.Rounds.{taken}
use amsserver.Server.System.Completed.{completed_faults_iff, System, System-Sound, begin, completed}
use amsserver.Server.System.Safe.{Safe}
use amsserver.Crt.Text.{strstr, starts_with}
use amsserver.Crt.Scan.{before}
use amsserver.Server.HttpRecv.Faults.{no_get_refused}
use amsserver.Server.Worker.{worker_round, Completion, dispatch, handle_recv}
use amsserver.Server.HttpRecv.{http_do_recv}
use amsserver.Server.Lifecycle.Ended.{stop_server-waits_iff}
use amsserver.Server.Lifecycle.Started.{started}
use amsserver.Server.Worker.Thread.{Queue, handle_all, run_threads, queued}
use amsserver.Server.Lifecycle.{stop_server, are_made, begin_threads, start_server, new_server}
use amsserver.Io.Buffer.{recv_posted, send_posted, read_text, receive}
use amsserver.Io.World.{>>=-done, World, Pending, load, load_handle, update}
use amsserver.Tests.{large, willing, peer, with_io, received}
use amsserver.Tests.Histories.{post_text}
use amsserver.Tests.Startup.{calm}

abbrev receive_pending : Pending
receive_pending = record { key = 7; io = 3; kind = recv_posted }

-- The io of the send is released.
abbrev send_pending : Pending
send_pending = record { key = 7; io = 2; kind = send_posted }

abbrev busy : World
busy = record (with_io (received [])) {
  pending = receive_pending ∷ send_pending ∷ [];
  listenhandle = 7;
}

busy-Sound : Sound busy
busy-Sound = record {
  next_io_given = ground arith;
  next_handle_given = ground arith;
  listener_given = ground arith;
  listener_there = ground arith;
  backed = (
    (ground arith, ground arith, ground arith, (ground arith, (received [], refl, refl))),
    ((ground arith, ground arith, ground arith, (ground arith, refl)), tt),
  );
  apart = ((tt, tt), (tt, tt));
}

busy-Steady : Steady busy
busy-Steady = record {
  next_io_given = ground arith;
  next_handle_given = ground arith;
  listener_given = ground arith;
  listener_there = ground arith;
  kept = (
    (ground arith, ground arith, ground arith, ground arith, ground arith),
    ((ground arith, ground arith, ground arith, ground arith, tt), tt),
  );
  distinct = ((ground arith, tt), (tt, tt));
}

abbrev sent : Completion
sent = record { ok = true; key = 7; io = 2; bytes = 1500 }

completed_faults_iff_example :
    (worker_round
        (http_do_recv large)
        willing
        sent
        (taken send_pending (receive_pending ∷ []) [] [] busy)
      ≡ crash use_after_free)
    ↔ ((send_pending.kind ≡ send_posted) × (true ≡ true))
completed_faults_iff_example =
    completed_faults_iff large willing sent busy send_pending (receive_pending ∷ []) [] []
      busy-Sound refl refl refl

-- The receive brings a request that is refused.
abbrev brought : World
brought = taken receive_pending [] (send_pending ∷ []) post_text busy

abbrev refused : World
refused = record brought {
  ios =
      update brought.ios 3
        (some (record (receive (received []) post_text) { bytestransfer = length post_text }));
}

message_refused : http_do_recv large willing 7 3 brought ≡ done (false, refused)
unfolding read_text before strstr starts_with receive
message_refused =
    no_get_refused large willing brought 7 3 (receive (received []) post_text) peer post_text
      (record {
        key_given = ground arith;
        io_given = ground arith;
        io_live = refl;
        handle_live = refl;
        reads = refl;
      })
      (ground arith, refl) (ground arith) refl

abbrev message_in : Completion
message_in = record { ok = true; key = 7; io = 3; bytes = 19 }

message_round : worker_round (http_do_recv large) willing message_in brought ≡ done (true, refused)
unfolding worker_round dispatch handle_recv load load_handle receive
message_round = ground (arith, message_refused)

refused_history : System large busy refused
refused_history =
    completed willing message_in receive_pending [] (send_pending ∷ []) post_text true
      (begin busy refl) refl refl refl message_round

System-Sound_example : Sound refused
System-Sound_example = System-Sound large busy refused busy-Sound refused_history

start_server-IsReady_example : Safe (λ v. Sound v × IsReady v) (start_server calm new_server busy)
start_server-IsReady_example =
    start_server-IsReady calm new_server busy busy-Sound (busy-Steady, refl)

abbrev one_message : Queue
one_message = (willing, message_in) ∷ []

one_message_handled : handle_all (http_do_recv large) one_message brought ≡ done (tt, refused)
unfolding handle_all
one_message_handled =
    >>=-done (worker_round (http_do_recv large) willing message_in) _ brought refused true
      message_round

-- Only two of the four signals are queued.
stop_server-waits_iff_example :
    (left : ℕ) × (run_threads
        (http_do_recv large)
        4
        (one_message ++ queued willing (λ i. true && ltb i 2) 4)
        brought
      ≡ done (left, refused))
    × ((left ≢ 0) ↔ (stop_server (λ i. ltb i 2) (started calm) refused ≡ done (none, refused)))
unfolding are_made begin_threads
stop_server-waits_iff_example =
    stop_server-waits_iff (http_do_recv large) (λ i. ltb i 2) (started calm) one_message willing
      brought refused peer refl refl (ground arith) (ground arith, tt) one_message_handled refl
