-- ===== src/Tests/Handlers.antt =====
-- Tests of the handlers on a process with one connection.
use amsserver.Server.HttpRecv.Fatal.{Fatal, crashes_iff, Treated}
use amsserver.Server.Worker.{handle_recv}
use amsserver.Server.Worker.Received.{handle_recv-Treated}
use amsserver.Server.HttpRecv.Answer.{Effect, query_text, http_do_recv-Effect}
use amsserver.Server.Response.Sent.{Responds, build_send-Responds}
use amsserver.Server.Iocp.Accept.{Accepted, do_accept_ex-Accepted}
use amsserver.Server.HttpRecv.{http_do_recv}
use amsserver.Crt.Text.{strstr, starts_with}
use amsserver.Server.Iocp.{do_accept_ex}
use amsserver.Crt.Scan.{before, scan_query}
use amsserver.Server.Response.{build_send}
use amsserver.Io.Buffer.{send_posted, read_text, prepare, new_io}
use amsserver.Base.{
  refl, ◌≡◌, true, crash, Bytes, Returns, codes, overrun, arith, replicate, ◌++◌, ◌↔◌, Fault, ◌⊎◌,
  Bool,
}
use amsserver.Tests.{large, holding, peer, received, with_io, willing, get_request}

build_send-Responds_example :
    Returns
      (build_send large (prepare send_posted new_io) (holding (codes "Query=0&ProjectID=P1")))
      (Responds large (codes "Query=0&ProjectID=P1") (prepare send_posted new_io))
build_send-Responds_example =
    build_send-Responds large (prepare send_posted new_io) (holding (codes "Query=0&ProjectID=P1"))
      refl refl (record { small = ground arith; no_payload = refl; no_flag = refl })

http_do_recv-Effect_example :
    Returns (http_do_recv large willing 7 3 (with_io (received get_request))) (λ (r, v).
      (r ≡ true)
      × Effect large (query_text large get_request) 7 3 peer (with_io (received get_request)) v)
unfolding read_text before strstr starts_with scan_query
http_do_recv-Effect_example =
    http_do_recv-Effect large willing (with_io (received get_request)) 7 3 (received get_request)
      peer (ground arith) (ground arith) (ground arith) (ground arith) refl refl refl refl
      get_request get_request refl (ground arith, refl) (ground arith) refl (ground arith)

do_accept_ex-Accepted_example :
    Returns
      (do_accept_ex willing 3 (with_io new_io))
      (λ (r, v). (r ≡ true) × Accepted willing 3 9 new_io (with_io new_io) v)
do_accept_ex-Accepted_example =
    do_accept_ex-Accepted willing (with_io new_io) 3 9 new_io (ground arith) (ground arith)
      (ground arith) refl refl refl refl refl

abbrev long_request : Bytes
long_request = codes "GET /?" ++ (replicate 256 b'Q' ++ codes " HTTP/1.1\r\n\r\n")

crashes_iff_example :
    (http_do_recv large willing 7 3 (with_io (received long_request)) ≡ crash overrun)
    ↔ Fatal large (received long_request) peer overrun
crashes_iff_example =
    crashes_iff large willing (with_io (received long_request)) 7 3 (received long_request) peer
      (ground arith) (ground arith) refl refl (ground arith) (ground arith) refl refl overrun

abbrev post_request : Bytes
post_request = codes "POST / HTTP/1.1\r\n\r\n"

handle_recv-Treated_example :
    ((e : Fault) × Fatal large (received post_request) peer e
      × (handle_recv (http_do_recv large) willing 7 3 (with_io (received post_request)) ≡ crash e))
    ⊎ Returns
        (handle_recv (http_do_recv large) willing 7 3 (with_io (received post_request)))
        (λ (b, v).
          (b ≡ true)
          × ((r : Bool) × Treated large
                (received post_request)
                peer
                7
                3
                (with_io (received post_request))
                r
                v))
handle_recv-Treated_example =
    handle_recv-Treated large willing (with_io (received post_request)) 7 3 (received post_request)
      peer (ground arith) (ground arith) refl refl (ground arith) (ground arith) refl refl
