-- ===== src/Tests/Histories.antt =====
-- Tests of sequences of rounds.
use amsserver.Server.HttpRecv.Faults.{no_get_refused}
use amsserver.Server.HttpRecv.{http_do_recv}
use amsserver.Crt.Text.{strstr, starts_with}
use amsserver.Crt.Scan.{before}
use amsserver.Server.Worker.History.{Stays, Runs-Stays, Runs, round, begin}
use amsserver.Server.Lifecycle.Ended.{run_threads-Ended}
use amsserver.Server.Worker.Thread.{Queue, handle_all, run_threads, signals}
use amsserver.Server.Worker.{worker_round, dispatch, handle_recv}
use amsserver.Io.Buffer.{read_text}
use amsserver.Base.{refl, ◌≡◌, some, true, false, done, Bytes, length, codes, arith, ◌∷◌, [], ◌++◌}
use amsserver.Tests.{large, willing, with_io, received, peer}
use amsserver.Io.World.{>>=-done, World, update, load, load_handle}

abbrev pub post_text : Bytes
post_text = codes "POST / HTTP/1.1\r\n\r\n"

-- The process after the request is refused.
abbrev refused_world : World
refused_world = record (with_io (received post_text)) {
  ios =
      update (with_io (received post_text)).ios 3
        (some (record (received post_text) { bytestransfer = length post_text }));
}

post_refused :
    http_do_recv large willing 7 3 (with_io (received post_text)) ≡ done (false, refused_world)
unfolding read_text before strstr starts_with
post_refused =
    no_get_refused large willing (with_io (received post_text)) 7 3 (received post_text) peer
      post_text
      (record {
        key_given = ground arith;
        io_given = ground arith;
        io_live = refl;
        handle_live = refl;
        reads = refl;
      })
      (ground arith, refl) (ground arith) refl

post_round :
    worker_round
      (http_do_recv large)
      willing
      (record { ok = true; key = 7; io = 3; bytes = 19 })
      (with_io (received post_text))
    ≡ done (true, refused_world)
unfolding worker_round dispatch handle_recv load load_handle
post_round = ground (arith, post_refused)

-- The round of the request, and then the receive that the peer ends.
post_history : Runs large 5 (with_io (received post_text)) refused_world
unfolding worker_round load
post_history =
    round willing (record { ok = true; key = 7; io = 3; bytes = 0 }) true
      (round willing (record { ok = true; key = 7; io = 3; bytes = 19 }) true (begin _ refl)
        (ground arith) post_round)
      (ground arith) refl

Runs-Stays_example : Stays 5 7 (with_io (received post_text)) refused_world
Runs-Stays_example =
    Runs-Stays large 5 7 (with_io (received post_text)) refused_world (ground arith) (ground arith)
      post_history

-- The request is before the signals to two threads.
abbrev one_request : Queue
one_request = (willing, record { ok = true; key = 7; io = 3; bytes = 19 }) ∷ []

one_request_handled :
    handle_all (http_do_recv large) one_request (with_io (received post_text))
    ≡ done (tt, refused_world)
unfolding handle_all
one_request_handled =
    >>=-done
      (worker_round (http_do_recv large) willing
        (record { ok = true; key = 7; io = 3; bytes = 19 }))
      _ (with_io (received post_text)) refused_world true post_round

run_threads-Ended_example :
    run_threads
      (http_do_recv large)
      2
      (one_request ++ signals willing 2)
      (with_io (received post_text))
    ≡ done (0, refused_world)
run_threads-Ended_example =
    run_threads-Ended (http_do_recv large) one_request willing 2 (with_io (received post_text))
      refused_world (ground arith) (ground arith, tt) one_request_handled
