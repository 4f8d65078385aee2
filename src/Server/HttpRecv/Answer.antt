-- ===== src/Server/HttpRecv/Answer.antt =====
-- What `HttpServer::DoRecv` does with a whole request.
use amsserver.Server.HttpRecv.Steps.{
  with_new_recv, reaches_send, reaches_answer, with_sent, post_send-sent, post_new_recv-world,
  post_send-refrained,
}
use amsserver.Log.{received_line, one_log_len}
use mathlib.Core.Path.{subst}
use amsserver.HttpData.Reply.{new-IsFresh}
use amsserver.Crt.Bounds.{Within}
use amsserver.Io.Texts.{read_text-clean, sent_bytes-padded}
use amsserver.Server.Response.Sent.{Responds, responded, refrained, build_send-Responds}
use amsserver.Crt.Text.{strstr}
use amsserver.Server.Response.Text.{
  response, IsShort, Payload-IsShort, response-IsText, length-response,
}
use amsserver.HttpData.Protocol.{Payload, IsSilent, IsFresh}
use amsserver.Server.Http.{http_get_length}
use amsserver.Server.Response.{build_send}
use amsserver.HttpData.State.{HttpData, new}
use amsserver.Crt.Scan.{scan_query, store_token}
use amsserver.HttpData.Items.{kept, items, store_token-kept, length-kept}
use amsserver.Io.World.{◌>>=◌, Answers, World, SocketHandle, update, >>=-done}
use amsserver.Io.Buffer.{
  send_posted, recv_posted, PerIoData, sent_bytes, prepare, read_text, reset_io_buf, buffersize,
}
use amsserver.Base.{
  ◌∷◌, none, some, true, false, done, Bytes, ℕ, codes, ◌≢◌, ◌≡◌, arith, refl, [], ◌++◌, length,
  replicate, ◌-◌, Bool, Returns, ◌∙◌, ap, Returns-eq, Option, ◌<◌, Returns-done, Returns-mono,
}
use amsserver.Server.HttpRecv.{http_do_recv, http_post_send, post_new_recv, answer_get}
use amsserver.Server.HttpRecv.Faults.{EndsRequest}

-- The text that the handler hands to `HttpData`.
abbrev pub query_text : (Bytes → ℕ) → Bytes → Bytes
query_text sizes t = kept (sizes (codes "GET")) (scan_query t)

-- What a whole request leads to. Its query is answered: the response is sent in a buffer of 1500
-- bytes, zeros behind it, the io is released, and a send and a new receive are pending. Or it is
-- silent: nothing is sent, and a new receive is pending.
pub data Effect (sizes : Bytes → ℕ) (q : Bytes) (k p : ℕ) (h : SocketHandle) (w v : World)
    : Type 0 where
  answered :
      (payload : Bytes)
      → Payload sizes q (items sizes q) payload
      → v.sent
        ≡ (h.ssocket, response payload ++ replicate (buffersize - length (response payload)) 0)
          ∷ w.sent
      → v.ios p ≡ none
      → v.pending
        ≡ record { key = k; io = w.next_io; kind = recv_posted }
          ∷ record { key = k; io = p; kind = send_posted }
          ∷ w.pending
      → Effect sizes q k p h w v
  unanswered :
      IsSilent sizes q
      → v.sent ≡ w.sent
      → v.pending ≡ record { key = k; io = w.next_io; kind = recv_posted } ∷ w.pending
      → Effect sizes q k p h w v

module _ (sizes : Bytes → ℕ) (a : Answers) (w : World) (k p : ℕ) (d : PerIoData) (h : SocketHandle)
    (hk : k ≢ 0) (hp : p ≢ 0) (hn : w.next_io ≢ 0) (fresh : p ≢ w.next_io) (live : w.ios p ≡ some d)
    (handle : w.handles k ≡ some h) (recv_starts : a.wsa_recv ≡ true)
    (send_starts : a.wsa_send ≡ true) where
  -- The rest of the handler, once the response is built.
  rest-Effect :
      (x : HttpData) (built : PerIoData) (r : Bool)
      → build_send sizes (prepare send_posted (reset_io_buf d)) x ≡ done (built, r)
      → Responds sizes x.recvdatabuf (prepare send_posted (reset_io_buf d)) (built, r)
      → Returns
          ((http_post_send sizes a k p x >>= λ _. post_new_recv a k)
            (record w { ios = update w.ios p (some (reset_io_buf d)) }))
          (λ (r, v). (r ≡ true) × Effect sizes x.recvdatabuf k p h w v)
  rest-Effect x built r b (responded payload y e f) =
      Returns-eq _ _ (true, with_new_recv a k (with_sent k p h built cleared))
        (>>=-done (http_post_send sizes a k p x) (λ _. post_new_recv a k) cleared
            (with_sent k p h built cleared) true
            (post_send-sent sizes a cleared k p (reset_io_buf d) h hk hp cleared_live handle x built
              (b ∙ ap (λ s. done (built, s)) f) (reads payload y e) send_starts)
          ∙ post_new_recv-world a k (with_sent k p h built cleared) h hk hn handle)
        (refl, answered payload y (sent payload y e) (ground arith) (rw recv_starts))
    where
      cleared : World
      cleared = record w { ios = update w.ios p (some (reset_io_buf d)) }

      cleared_live : cleared.ios p ≡ some (reset_io_buf d)
      cleared_live = ground arith

      short :
          (payload : Bytes)
          → Payload sizes x.recvdatabuf (items sizes x.recvdatabuf) payload
          → IsShort payload
      short payload y = Payload-IsShort sizes x.recvdatabuf (items sizes x.recvdatabuf) payload y

      reads :
          (payload : Bytes)
          → Payload sizes x.recvdatabuf (items sizes x.recvdatabuf) payload
          → built ≡ record (prepare send_posted (reset_io_buf d)) { buf = response payload }
          → read_text built ≡ done built.buf
      reads payload y e = rw e (
          read_text-clean (record (prepare send_posted (reset_io_buf d)) { buf = response payload })
            (response-IsText payload (short payload y))
            (omega (arith, length-response payload (short payload y))))

      sent :
          (payload : Bytes)
          → Payload sizes x.recvdatabuf (items sizes x.recvdatabuf) payload
          → built ≡ record (prepare send_posted (reset_io_buf d)) { buf = response payload }
          → (h.ssocket, sent_bytes built) ∷ w.sent
            ≡ (h.ssocket, response payload ++ replicate (buffersize - length (response payload)) 0)
              ∷ w.sent
      sent payload y e =
          ap (λ b. (h.ssocket, b) ∷ w.sent)
            (ap sent_bytes e
              ∙ (sent_bytes-padded
                  (record (prepare send_posted (reset_io_buf d)) { buf = response payload }) refl
                  (omega (arith, length-response payload (short payload y)))).0)
  rest-Effect x built r b (refrained s e f) =
      Returns-eq _ _ (true, with_new_recv a k left)
        (>>=-done (http_post_send sizes a k p x) (λ _. post_new_recv a k) cleared left false
            (post_send-refrained sizes a cleared k p (reset_io_buf d) h hk hp (ground arith) handle
              x built (b ∙ ap (λ y. done (built, y)) e))
          ∙ post_new_recv-world a k left h hk hn handle)
        (refl, unanswered s refl (rw recv_starts))
    where
      cleared : World
      cleared = record w { ios = update w.ios p (some (reset_io_buf d)) }

      left : World
      left = record cleared { ios = update cleared.ios p (some built) }

-- The effect looks at the operations and the sends of the world before.
Effect-ios :
    (sizes : Bytes → ℕ) (q : Bytes) (k p : ℕ) (h : SocketHandle) (w v : World)
    (ios : ℕ → Option PerIoData)
    → Effect sizes q k p h (record w { ios = ios }) v
    → Effect sizes q k p h w v
Effect-ios sizes q k p h w v ios (answered payload y s n o) = answered payload y s n o
Effect-ios sizes q k p h w v ios (unanswered y s o) = unanswered y s o

module _ (sizes : Bytes → ℕ) (a : Answers) (w : World) (k p : ℕ) (d : PerIoData) (h : SocketHandle)
    (hk : k ≢ 0) (hp : p ≢ 0) (hn : w.next_io ≢ 0) (fresh : p ≢ w.next_io) (live : w.ios p ≡ some d)
    (handle : w.handles k ≡ some h) (recv_starts : a.wsa_recv ≡ true)
    (send_starts : a.wsa_send ≡ true) where
  abbrev pub counted : ℕ → World
  counted n = record w { ios = update w.ios p (some (record d { bytestransfer = n })) }

  -- From the new `HttpData` on.
  pub answer-Effect :
      (n : ℕ) (t q : Bytes)
      → store_token http_get_length (sizes (codes "GET")) [] (scan_query t) ≡ done q
      → length q < 980
      → Returns
          (answer_get sizes a k p d t (counted n))
          (λ (r, v). (r ≡ true) × Effect sizes q k p h w v)
  answer-Effect n t q s l =
      let (x, made, (f, e)) =
        Returns-done (new q) (λ x. IsFresh x × (x.recvdatabuf ≡ q)) (new-IsFresh q l) in
      let sendbuf : PerIoData =
        prepare send_posted (reset_io_buf (record d { bytestransfer = n })) in
      let (b, build, resp) =
        Returns-done (build_send sizes sendbuf x) (Responds sizes x.recvdatabuf sendbuf)
          (build_send-Responds sizes sendbuf x refl refl f) in
      let there : (counted n).ios p ≡ some (record d { bytestransfer = n }) = ground arith in
      rw
        (reaches_send sizes a (counted n) k p d (record d { bytestransfer = n }) t q x there s made)
        (Returns-mono _ _ (λ (r, v). (r ≡ true) × Effect sizes q k p h w v)
          (rest-Effect sizes a (counted n) k p (record d { bytestransfer = n }) h hk hp hn fresh
            there handle recv_starts send_starts x b.0 b.1 build resp)
          (λ r g. (
            g.0,
            subst (λ y. Effect sizes y k p h w r.1) e
                (Effect-ios sizes x.recvdatabuf k p h w r.1 _ g.1),
          )))

  -- A whole request in a live io, of a live handle, is handled without a fault if its query is
  -- shorter than 256 bytes and its line for the log than 1000, where the system starts the send and
  -- the new receive. The handler returns TRUE and has the effect that the protocol gives for the
  -- query.
  pub http_do_recv-Effect :
      (t g : Bytes)
      → read_text d ≡ done t
      → EndsRequest t
      → length (received_line h.ssocketaddr t) < one_log_len
      → strstr t (codes "GET") ≡ some g
      → Within 255 (scan_query t)
      → Returns
          (http_do_recv sizes a k p w)
          (λ (r, v). (r ≡ true) × Effect sizes (query_text sizes t) k p h w v)
  http_do_recv-Effect t g r e v f l =
      rw (reaches_answer sizes a w k p d h hk hp live handle t g r e v f) (
        answer-Effect (length t) t (query_text sizes t)
          (store_token-kept 256 (sizes (codes "GET")) 255 (scan_query t) l (omega arith))
          (omega (arith, length-kept (sizes (codes "GET")) 255 (scan_query t) l)))
