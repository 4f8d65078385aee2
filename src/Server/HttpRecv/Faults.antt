-- ===== src/Server/HttpRecv/Faults.antt =====
-- The receives that `HttpServer::DoRecv` does not survive.
use amsserver.Log.{ams_dbug_log, one_log_len, received_line}
use amsserver.Crt.Equality.{equal_iff}
use native.Mathlib.Decide.{dec_lt}
use amsserver.Crt.Scan.{store_token, scan_query, before}
use amsserver.Crt.Text.{strstr}
use amsserver.Server.Iocp.{post_recv}
use amsserver.Server.Http.{check_recv_buf_end, derive_check_recv, http_get_length}
use amsserver.Io.Buffer.{PerIoData, read_text, buffersize}
use amsserver.Io.World.{World, Answers, load, store, SocketHandle, load_handle, update}
use amsserver.Base.{
  some, done, crash, Bytes, ℕ, ◌≤◌, length, ◌≢◌, take, ◌≡◌, drop, ◌-◌, codes, ◌<◌, underrun, arith,
  if◌then◌else◌, none, false, ltb, overrun, ◌∙◌,
}
use amsserver.Server.HttpRecv.{http_do_recv}

-- The handler is called on a live handle and io, and the io holds the text received.
pub record Holds (w : World) (k p : ℕ) (d : PerIoData) (h : SocketHandle) (t : Bytes) : Type 0 where
  pub key_given : k ≢ 0
  pub io_given : p ≢ 0
  pub io_live : w.ios p ≡ some d
  pub handle_live : w.handles k ≡ some h
  pub reads : read_text d ≡ done t

abbrev pub EndsRequest : Bytes → Type 0
EndsRequest t = (4 ≤ length t) × (take 4 (drop (length t - 4) t) ≡ codes "\r\n\r\n")

module _ (sizes : Bytes → ℕ) (a : Answers) (w : World) (k p : ℕ) (d : PerIoData) (h : SocketHandle)
    (t : Bytes) (held : Holds w k p d h t) where
  short_faults : length t < 4 → http_do_recv sizes a k p w ≡ crash underrun
  unfolding http_do_recv load store check_recv_buf_end
  short_faults l = ground (arith, held.io_live)

  split_faults : 4 ≤ length t → (¬ EndsRequest t) → http_do_recv sizes a k p w ≡ crash overrun
  unfolding http_do_recv load store load_handle check_recv_buf_end derive_check_recv post_recv
  split_faults l e = ground (
    arith,
    held.io_live,
    held.handle_live,
    equal_iff (take 4 (drop (length t - 4) t)) (codes "\r\n\r\n"),
  )

  -- A message that does not end a request is not read on: with fewer than four bytes the handler
  -- reads before the buffer, and with more WSARecv is given a buffer behind the one that there is.
  pub incomplete_faults :
      ¬ EndsRequest t
      → http_do_recv sizes a k p w ≡ crash (if ltb (length t) 4 then underrun else overrun)
  incomplete_faults e = elim (dec_lt (length t) 4) [
    | yes l ↦ short_faults l ∙ ground arith
    | no l ↦ split_faults (omega arith) e ∙ ground arith
  ]

  -- A whole request whose line for the log has 1000 bytes or more overruns the buffer of the log.
  pub long_message_faults :
      EndsRequest t
      → one_log_len ≤ length (received_line h.ssocketaddr t)
      → http_do_recv sizes a k p w ≡ crash overrun
  unfolding http_do_recv load store load_handle check_recv_buf_end derive_check_recv ams_dbug_log
  long_message_faults e v = ground (
    arith,
    held.io_live,
    held.handle_live,
    equal_iff (take 4 (drop (length t - 4) t)) (codes "\r\n\r\n"),
  )

  -- A request with no "GET" that can be logged is refused: the handler returns FALSE, and of the
  -- world it changes the count of the bytes in the io only; neither an answer nor a new receive is
  -- posted.
  pub no_get_refused :
      EndsRequest t
      → length (received_line h.ssocketaddr t) < one_log_len
      → strstr t (codes "GET") ≡ none
      → http_do_recv sizes a k p w
        ≡ done (
          false,
          record w { ios = update w.ios p (some (record d { bytestransfer = length t })) },
        )
  unfolding http_do_recv load store load_handle check_recv_buf_end derive_check_recv ams_dbug_log
  no_get_refused e v g = ground (
    arith,
    held.io_live,
    held.handle_live,
    equal_iff (take 4 (drop (length t - 4) t)) (codes "\r\n\r\n"),
  )

  -- A query of 256 bytes or more overruns the handler's buffer, if the size that sscanf_s reads
  -- allows the query and the request can be logged.
  pub long_query_faults :
      (g q : Bytes)
      → EndsRequest t
      → length (received_line h.ssocketaddr t) < one_log_len
      → strstr t (codes "GET") ≡ some g
      → scan_query t ≡ some q
      → http_get_length ≤ length q
      → length q < sizes (codes "GET")
      → http_do_recv sizes a k p w ≡ crash overrun
  unfolding http_do_recv load store load_handle check_recv_buf_end derive_check_recv store_token
      ams_dbug_log
  long_query_faults g q e v f s l r = ground (
    arith,
    held.io_live,
    held.handle_live,
    equal_iff (take 4 (drop (length t - 4) t)) (codes "\r\n\r\n"),
  )

-- A receive that fills the buffer and brings no NUL is read past the end.
pub full_buffer_faults :
    (sizes : Bytes → ℕ) (a : Answers) (w : World) (k p : ℕ) (d : PerIoData)
    → k ≢ 0
    → p ≢ 0
    → w.ios p ≡ some d
    → buffersize ≤ length (before 0 d.buf)
    → http_do_recv sizes a k p w ≡ crash overrun
unfolding http_do_recv load read_text
full_buffer_faults sizes a w k p d hk hp live h = ground arith
