-- ===== src/Server/Http.antt =====
-- `HttpServer`: the end of a request, the response, and the handler of a receive.
use amsserver.Crt.Number.{decimal}
use amsserver.Crt.Text.{equal}
use amsserver.Io.Buffer.{PerIoData}
use amsserver.Base.{
  true, false, done, crash, ℕ, Bool, Bytes, Outcome, if◌then◌else◌, not, leb, ltb, length, underrun,
  codes, ◌++◌, take, drop, invalid_parameter, ◌-◌,
}

abbrev pub http_get_length : ℕ
http_get_length = 256

-- `DeriveCheckRecv` and `DeriveBuildSend`
unfoldable pub derive_check_recv : ℕ → Bool
derive_check_recv bytestransfer = true

unfoldable pub derive_build_send : PerIoData → Bool
derive_build_send sendbuf = true

-- The last four bytes are read from `buf + bytestransfer - 4`.
unfoldable pub check_recv_buf_end : ℕ → Bytes → Outcome Bool
unfolding derive_check_recv
check_recv_buf_end bytestransfer text =
    if not (derive_check_recv bytestransfer)
    then done false
    else if ltb bytestransfer 4
    then crash underrun
    else done (equal (take 4 (drop (bytestransfer - 4) text)) (codes "\r\n\r\n"))

-- `sprintf_s(tmpBuf, 32, "Content-Length: %d", n)`
unfoldable pub content_length : ℕ → Outcome Bytes
content_length n =
    if leb 32 (length (codes "Content-Length: " ++ decimal n))
    then crash invalid_parameter
    else done (codes "Content-Length: " ++ decimal n)
