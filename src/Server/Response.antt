-- ===== src/Server/Response.antt =====
-- `HttpServer::BuildSend`: the response in the send buffer.
use amsserver.HttpData.Build.{handle_http_data}
use amsserver.HttpData.State.{HttpData}
use amsserver.Io.Buffer.{PerIoData, append_text}
use amsserver.Base.{◌>>=◌, true, false, done, Bytes, Outcome, ℕ, Bool, length, codes, if◌then◌else◌}
pub mod Text
pub mod Sent
use amsserver.Server.Http.{content_length, derive_build_send}

unfoldable pub append_body : PerIoData → Bytes → Outcome (PerIoData × Bool)
unfolding derive_build_send
append_body sendbuf payloadbuf = do
  tmp_buf ← content_length (length payloadbuf)
  lengthed ← append_text sendbuf tmp_buf
  blank ← append_text lengthed (codes "\r\n\r\n")
  whole ← append_text blank payloadbuf
  if derive_build_send whole then done (whole, true) else done (whole, false)

unfoldable pub build_send : (Bytes → ℕ) → PerIoData → HttpData → Outcome (PerIoData × Bool)
unfolding append_body
build_send sizes sendbuf httpdata = do
  status ← append_text sendbuf (codes "HTTP/1.1 200 OK")
  status_line ← append_text status (codes "\r\n")
  type ← append_text status_line (codes "Content-Type: text/html")
  header ← append_text type (codes "\r\n")
  (handled, r) ← handle_http_data sizes httpdata
  if r then append_body header handled.payloadbuf else done (header, false)
