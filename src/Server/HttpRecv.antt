-- ===== src/Server/HttpRecv.antt =====
-- `HttpServer::PostSend` and `HttpServer::DoRecv`.
pub mod Faults
pub mod Fatal
pub mod Steps
pub mod Answer
use amsserver.Log.{ams_dbug_log, received_line}
use amsserver.Crt.Text.{strstr}
use amsserver.Crt.Scan.{store_token, scan_query}
use amsserver.Io.Buffer.{PerIoData, prepare, read_text, send_posted, reset_io_buf}
use amsserver.HttpData.State.{HttpData, new}
use amsserver.Base.{
  [], none, some, true, false, Bytes, ℕ, Bool, if◌then◌else◌, ◌==◌, ◌||◌, codes, length,
}
use amsserver.Io.World.{
  World, M, give, ◌>>=◌, ◌>>◌, Answers, get_new_io_data, lift, load, store, load_handle,
}
use amsserver.Server.Iocp.{post_recv, send_and_remove}
use amsserver.Server.Http.{check_recv_buf_end, http_get_length}
use amsserver.Server.Response.{build_send}

unfoldable pub http_post_send : (Bytes → ℕ) → Answers → ℕ → ℕ → HttpData → M Bool
http_post_send sizes a connecthandle connectiodata httpdata =
    if connecthandle == 0 || connectiodata == 0 then give false else do
      d ← load connectiodata
      (built, r) ← lift (build_send sizes (prepare send_posted d) httpdata)
      store connectiodata built
      if r
          then (do
            _ ← lift (read_text built)
            send_and_remove a.wsa_send connecthandle connectiodata)
          else give false

-- The new receive at the end of the handler.
unfoldable pub post_new_recv : Answers → ℕ → M Bool
post_new_recv a connecthandle = do
  newconnectiodata ← get_new_io_data
  post_recv a.wsa_recv connecthandle newconnectiodata
  give true

-- A whole request: what stands behind "GET … ?" up to a blank goes to a new `HttpData`.
unfoldable pub answer_get : (Bytes → ℕ) → Answers → ℕ → ℕ → PerIoData → Bytes → M Bool
answer_get sizes a connecthandle connectiodata d text = do
  getbuf ← lift (store_token http_get_length (sizes (codes "GET")) [] (scan_query text))
  httpdata ← lift (new getbuf)
  store connectiodata (reset_io_buf d)
  _ ← http_post_send sizes a connecthandle connectiodata httpdata
  post_new_recv a connecthandle

unfoldable pub http_do_recv : (Bytes → ℕ) → Answers → ℕ → ℕ → M Bool
unfolding answer_get
http_do_recv sizes a connecthandle connectiodata =
    if connecthandle == 0 || connectiodata == 0 then give false else do
      d ← load connectiodata
      text ← lift (read_text d)
      store connectiodata (record d { bytestransfer = length text })
      complete ← lift (check_recv_buf_end (length text) text)
      if complete
          then (do
            h ← load_handle connecthandle
            _ ← lift (ams_dbug_log (received_line h.ssocketaddr text))
            elim (strstr text (codes "GET")) [
              | none ↦ give false
              | some _ ↦ answer_get sizes a connecthandle connectiodata d text
            ])
          else do
            post_recv a.wsa_recv_again connecthandle connectiodata
            post_new_recv a connecthandle
