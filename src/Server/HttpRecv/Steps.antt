-- ===== src/Server/HttpRecv/Steps.antt =====
-- The steps of `HttpServer::DoRecv` on a whole request, each as the world that it leaves.
use amsserver.Log.{ams_dbug_log, received_line, one_log_len}
use amsserver.Crt.Equality.{equal_iff}
use amsserver.Crt.Text.{strstr}
use amsserver.Server.Http.{check_recv_buf_end, derive_check_recv, http_get_length}
use amsserver.Server.Response.{build_send}
use amsserver.HttpData.State.{HttpData, new}
use amsserver.Crt.Scan.{scan_query, store_token}
use amsserver.Server.Iocp.{post_recv, send_and_remove}
use amsserver.Io.World.{
  ◌>>=◌, Answers, get_new_io_data, World, SocketHandle, update, load, store, load_handle,
  start_operation, remove_io_data,
}
use amsserver.Io.Buffer.{
  send_posted, recv_posted, PerIoData, new_io, sent_bytes, prepare, read_text, reset_io_buf,
}
use amsserver.Base.{
  if◌then◌else◌, ◌∷◌, none, some, true, false, suc, done, Bytes, ℕ, codes, ◌≢◌, ◌≡◌, arith, [],
  length, take, ◌-◌, drop, ◌<◌,
}
use amsserver.Server.HttpRecv.{http_do_recv, http_post_send, post_new_recv, answer_get}
use amsserver.Server.HttpRecv.Faults.{EndsRequest}

-- The world after the new receive is posted, or is refused by the system.
abbrev pub with_new_recv : Answers → ℕ → World → World
with_new_recv a k w = record w {
  ios = update (update w.ios w.next_io (some new_io)) w.next_io (some (prepare recv_posted new_io));
  next_io = suc w.next_io;
  pending =
      if a.wsa_recv
      then record { key = k; io = w.next_io; kind = recv_posted } ∷ w.pending
      else w.pending;
}

pub post_new_recv-world :
    (a : Answers) (k : ℕ) (w : World) (h : SocketHandle)
    → k ≢ 0
    → w.next_io ≢ 0
    → w.handles k ≡ some h
    → post_new_recv a k w ≡ done (true, with_new_recv a k w)
unfolding post_new_recv get_new_io_data post_recv load store load_handle start_operation
post_new_recv-world a k w h hk hn live = ground arith

-- The world after a response is handed to the system and its io is released.
abbrev pub with_sent : ℕ → ℕ → SocketHandle → PerIoData → World → World
with_sent k p h built w = record w {
  ios = update (update w.ios p (some built)) p none;
  pending = record { key = k; io = p; kind = send_posted } ∷ w.pending;
  sent = (h.ssocket, sent_bytes built) ∷ w.sent;
  heap_locked = false;
}

module _ (sizes : Bytes → ℕ) (a : Answers) (w : World) (k p : ℕ) (d : PerIoData) (h : SocketHandle)
    (hk : k ≢ 0) (hp : p ≢ 0) (live : w.ios p ≡ some d) (handle : w.handles k ≡ some h) where
  pub post_send-sent :
      (x : HttpData) (built : PerIoData)
      → build_send sizes (prepare send_posted d) x ≡ done (built, true)
      → read_text built ≡ done built.buf
      → a.wsa_send ≡ true
      → http_post_send sizes a k p x w ≡ done (true, with_sent k p h built w)
  unfolding http_post_send load store load_handle start_operation remove_io_data send_and_remove
  post_send-sent x built b r s = ground arith

  pub post_send-refrained :
      (x : HttpData) (built : PerIoData)
      → build_send sizes (prepare send_posted d) x ≡ done (built, false)
      → http_post_send sizes a k p x w
        ≡ done (false, record w { ios = update w.ios p (some built) })
  unfolding http_post_send load store
  post_send-refrained x built b = ground arith

  -- Up to the call of `answer_get`.
  pub reaches_answer :
      (t g : Bytes)
      → read_text d ≡ done t
      → EndsRequest t
      → length (received_line h.ssocketaddr t) < one_log_len
      → strstr t (codes "GET") ≡ some g
      → http_do_recv sizes a k p w
        ≡ answer_get sizes a k p d t
            (record w { ios = update w.ios p (some (record d { bytestransfer = length t })) })
  unfolding http_do_recv load store load_handle check_recv_buf_end derive_check_recv ams_dbug_log
  reaches_answer t g r e v f =
      ground (arith, equal_iff (take 4 (drop (length t - 4) t)) (codes "\r\n\r\n"))

-- From there to the call of `PostSend`.
pub reaches_send :
    (sizes : Bytes → ℕ) (a : Answers) (w : World) (k p : ℕ) (d e : PerIoData) (t q : Bytes)
    (x : HttpData)
    → w.ios p ≡ some e
    → store_token http_get_length (sizes (codes "GET")) [] (scan_query t) ≡ done q
    → new q ≡ done x
    → answer_get sizes a k p d t w
      ≡ (http_post_send sizes a k p x >>= λ _. post_new_recv a k)
          (record w { ios = update w.ios p (some (reset_io_buf d)) })
unfolding answer_get store
reaches_send sizes a w k p d e t q x live s n = ground arith
