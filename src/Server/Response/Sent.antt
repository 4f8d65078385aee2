-- ===== src/Server/Response/Sent.antt =====
-- `BuildSend` on a cleared buffer and a new `HttpData`.
use amsserver.HttpData.Reply.{handle_http_data-Reply}
use amsserver.HttpData.Build.{handle_http_data}
use amsserver.Crt.Text.{strcat_s}
use amsserver.HttpData.Items.{items}
use amsserver.HttpData.Protocol.{IsFresh, Payload, IsSilent, Reply, answered, silent}
use amsserver.Io.Texts.{IsClean}
use amsserver.Crt.Scan.{before}
use amsserver.HttpData.State.{HttpData}
use amsserver.Io.Buffer.{PerIoData, append_text, read_text, buffersize, over}
use amsserver.Base.{
  refl, ◌≡◌, [], true, false, done, Bytes, ℕ, Bool, Outcome, Returns, arith, Returns-bind, ◌>>=◌,
  if◌then◌else◌,
}
use amsserver.Server.Response.{build_send, append_body}
use amsserver.Server.Response.Text.{
  response, length_text, status_text, append_body-text, Payload-IsShort,
}

-- The response to a request: TRUE and the response text with the payload that the protocol gives,
-- or FALSE for a silent request.
pub data Responds (sizes : Bytes → ℕ) (recv : Bytes) (d : PerIoData) (r : PerIoData × Bool)
    : Type 0 where
  responded :
      (p : Bytes)
      → Payload sizes recv (items sizes recv) p
      → r.0 ≡ record d { buf = response p }
      → r.1 ≡ true
      → Responds sizes recv d r
  refrained :
      IsSilent sizes recv
      → r.1 ≡ false
      → r.0 ≡ record d { buf = status_text }
      → Responds sizes recv d r

finish : PerIoData → HttpData × Bool → Outcome (PerIoData × Bool)
finish header (handled, r) =
    if r then append_body header handled.payloadbuf else done (header, false)

build_send-finish :
    (sizes : Bytes → ℕ) (d : PerIoData) (h : HttpData)
    → d.buf ≡ []
    → d.len ≡ buffersize
    → build_send sizes d h ≡ (handle_http_data sizes h >>= finish (record d { buf = status_text }))
unfolding build_send append_text read_text before over strcat_s finish
build_send-finish sizes d h b l = rw (b, l) refl

headed-IsClean : (d : PerIoData) → d.len ≡ buffersize → IsClean (record d { buf = status_text })
headed-IsClean d l = record { text = omega arith; room = l }

finish-Responds :
    (sizes : Bytes → ℕ) (recv : Bytes) (d : PerIoData) (r : HttpData × Bool)
    → d.len ≡ buffersize
    → Reply sizes recv r
    → Returns (finish (record d { buf = status_text }) r) (Responds sizes recv d)
unfolding finish length_text
finish-Responds sizes recv d (e, r) l (answered q p) = rw q (
    rw
      (append_body-text (record d { buf = status_text }) e.payloadbuf (headed-IsClean d l)
        (Payload-IsShort sizes recv (items sizes recv) e.payloadbuf p) (omega arith))
      (responded e.payloadbuf p refl refl))
finish-Responds sizes recv d (e, r) l (silent q f p) = rw f (refrained q refl refl)

-- On a cleared buffer and a new object with fewer than 980 bytes `BuildSend` ends without a fault. It builds the response to the request, its
-- Content-Length that of the payload, or returns FALSE on a silent request.
pub build_send-Responds :
    (sizes : Bytes → ℕ) (d : PerIoData) (h : HttpData)
    → d.buf ≡ []
    → d.len ≡ buffersize
    → IsFresh h
    → Returns (build_send sizes d h) (Responds sizes h.recvdatabuf d)
build_send-Responds sizes d h b l f = rw (build_send-finish sizes d h b l) (
    Returns-bind (handle_http_data sizes h) (finish (record d { buf = status_text }))
      (Reply sizes h.recvdatabuf) (Responds sizes h.recvdatabuf d)
      (handle_http_data-Reply sizes h f) (λ r q. finish-Responds sizes h.recvdatabuf d r l q))
