-- ===== src/Server/Worker/Handlers.antt =====
-- The handlers of HttpServer keep handles and sockets.
use amsserver.Server.Worker.{dispatch, worker_round, Completion, handle_recv, is_recv_or_send}
use amsserver.Crt.Text.{strstr}
use amsserver.Log.{ams_dbug_log, received_line}
use amsserver.Server.Http.{http_get_length, check_recv_buf_end}
use amsserver.Server.Response.{build_send}
use amsserver.Crt.Scan.{store_token, scan_query}
use amsserver.HttpData.State.{HttpData, new}
use amsserver.Server.Worker.Calls.{
  start_operation-Keeps, load-Keeps, get_new_io_data-Keeps, wait-Keeps, load_handle-Keeps,
  store-Keeps, new_socket_handle-Keeps, release-Keeps, remove_io_data-Keeps, store_handle-Keeps,
  post_accept_ex-Keeps,
}
use amsserver.Server.HttpRecv.{post_new_recv, http_post_send, answer_get, http_do_recv}
use amsserver.Server.Iocp.{
  wsa_recv_from, post_recv, do_accept_ex, send_and_remove, derive_accept_ex, post_accept_ex,
}
use amsserver.Io.Buffer.{
  recv_posted, send_posted, PerIoData, read_text, prepare, sent_bytes, reset_io_buf, accept_posted,
  null_posted, OperationType,
}
use amsserver.Base.{
  refl, ◌∷◌, [], none, some, true, false, crash, Bytes, Bool, ℕ, ◌==◌, ◌||◌, Option, overrun, codes,
  length, ◌&&◌, not,
}
use amsserver.Server.Worker.Kept.{
  Keeps, Keeps-bind, Keeps-then, Keeps-give, Keeps-if, Keeps-lift, Kept-same,
}
use amsserver.Io.World.{
  Answers, lift, give, load, get_new_io_data, store, wait_heap_protect_mutex, load_handle,
  new_socket_handle, modify, release_heap_protect_mutex, start_operation, remove_io_data,
  store_handle,
}

module _ (a : Answers) where
  wsa_recv_from-Keeps :
      (started : Bool) (k p : ℕ) (d : PerIoData) → Keeps a (wsa_recv_from started k p d)
  unfolding wsa_recv_from
  wsa_recv_from-Keeps started k p d =
      Keeps-if a (d.bytestransfer == 0) _ _
        (Keeps-if a started _ _ (start_operation-Keeps a _) (Keeps-give a tt))
        (Keeps-lift {A = Unit {0}} a (crash overrun))

  post_recv-Keeps : (started : Bool) (k p : ℕ) → Keeps a (post_recv started k p)
  unfolding post_recv
  post_recv-Keeps started k p = Keeps-if a (k == 0 || p == 0) _ _ (Keeps-give a tt) (
      Keeps-bind a (load p) _ (load-Keeps a p) λ d.
        Keeps-then a (store p (prepare recv_posted d)) _ (store-Keeps a p _) (
          Keeps-bind a (load_handle k) _ (load_handle-Keeps a k)
            λ h. wsa_recv_from-Keeps started k p d))

  do_accept_ex-Keeps : (p : ℕ) → Keeps a (do_accept_ex a p)
  unfolding do_accept_ex
  do_accept_ex-Keeps p = Keeps-bind a (load p) _ (load-Keeps a p) λ d.
      Keeps-then a wait_heap_protect_mutex _ (wait-Keeps a) (
        Keeps-bind a new_socket_handle _ (new_socket_handle-Keeps a) λ k.
          Keeps-then a release_heap_protect_mutex _ (release-Keeps a) (
            Keeps-then a
              (store_handle k (record { ssocket = d.acceptsocket; ssocketaddr = a.remote })) _
              (store_handle-Keeps a k _)
              (Keeps-if a (a.associate && derive_accept_ex p) _ _
                (Keeps-bind a get_new_io_data _ (get_new_io_data-Keeps a) λ c.
                  Keeps-then a (post_recv a.wsa_recv k c) _ (post_recv-Keeps a.wsa_recv k c) (
                    Keeps-then a (remove_io_data p) _ (remove_io_data-Keeps a p) (
                      Keeps-bind a get_new_io_data _ (get_new_io_data-Keeps a) λ n.
                        Keeps-then a (post_accept_ex a n) _ (post_accept_ex-Keeps a n)
                          (Keeps-give a true))))
                (Keeps-give a false))))

  send_and_remove-Keeps : (started : Bool) (k p : ℕ) → Keeps a (send_and_remove started k p)
  unfolding send_and_remove
  send_and_remove-Keeps started k p = Keeps-bind a (load p) _ (load-Keeps a p) λ d.
      Keeps-bind a (load_handle k) _ (load_handle-Keeps a k) λ h.
        Keeps-if a started _ _
          (Keeps-then a (modify (λ w. record w { sent = (h.ssocket, sent_bytes d) ∷ w.sent })) _
            (λ w. Kept-same a _ _ refl refl refl)
            (Keeps-then a (start_operation _) _ (start_operation-Keeps a _)
              (Keeps-then a (remove_io_data p) _ (remove_io_data-Keeps a p) (Keeps-give a true))))
          (Keeps-give a false)

  post_new_recv-Keeps : (k : ℕ) → Keeps a (post_new_recv a k)
  unfolding post_new_recv
  post_new_recv-Keeps k = Keeps-bind a get_new_io_data _ (get_new_io_data-Keeps a) λ n.
      Keeps-then a (post_recv a.wsa_recv k n) _ (post_recv-Keeps a.wsa_recv k n) (Keeps-give a true)

  module _ (sizes : Bytes → ℕ) where
    http_post_send-Keeps : (k p : ℕ) (x : HttpData) → Keeps a (http_post_send sizes a k p x)
    unfolding http_post_send
    http_post_send-Keeps k p x = Keeps-if a (k == 0 || p == 0) _ _ (Keeps-give a false) (
        Keeps-bind a (load p) _ (load-Keeps a p) λ d.
          Keeps-bind a (lift (build_send sizes (prepare send_posted d) x)) _ (Keeps-lift a _)
            λ (b, r). Keeps-then a (store p b) _ (store-Keeps a p b) (
              Keeps-if a r _ _
                (Keeps-bind a (lift (read_text b)) _ (Keeps-lift a _)
                  λ t. send_and_remove-Keeps a.wsa_send k p)
                (Keeps-give a false)))

    answer_get-Keeps : (k p : ℕ) (d : PerIoData) (t : Bytes) → Keeps a (answer_get sizes a k p d t)
    unfolding answer_get
    answer_get-Keeps k p d t =
        Keeps-bind a (lift (store_token http_get_length (sizes (codes "GET")) [] (scan_query t))) _
          (Keeps-lift a _)
          λ g. Keeps-bind a (lift (new g)) _ (Keeps-lift a _) λ x.
            Keeps-then a (store p (reset_io_buf d)) _ (store-Keeps a p _) (
              Keeps-bind a (http_post_send sizes a k p x) _ (http_post_send-Keeps k p x)
                λ r. post_new_recv-Keeps k)

    pub http_do_recv-Keeps : (k p : ℕ) → Keeps a (http_do_recv sizes a k p)
    unfolding http_do_recv
    http_do_recv-Keeps k p = Keeps-if a (k == 0 || p == 0) _ _ (Keeps-give a false) (
        Keeps-bind a (load p) _ (load-Keeps a p) λ d.
          Keeps-bind a (lift (read_text d)) _ (Keeps-lift a _) λ t.
            Keeps-then a (store p (record d { bytestransfer = length t })) _ (store-Keeps a p _) (
              Keeps-bind a (lift (check_recv_buf_end (length t) t)) _ (Keeps-lift a _) λ c.
                Keeps-if a c _ _
                  (Keeps-bind a (load_handle k) _ (load_handle-Keeps a k) λ h.
                    Keeps-bind a (lift (ams_dbug_log (received_line h.ssocketaddr t))) _
                      (Keeps-lift a _) λ u. found (strstr t (codes "GET")) d t)
                  (Keeps-then a (post_recv a.wsa_recv_again k p) _
                    (post_recv-Keeps a.wsa_recv_again k p) (post_new_recv-Keeps k))))
      where
        found :
            (o : Option Bytes) (d : PerIoData) (t : Bytes)
            → Keeps a (elim o [ none ↦ give false | some g ↦ answer_get sizes a k p d t ])
        found none d t = Keeps-give a false
        found (some g) d t = answer_get-Keeps k p d t

    dispatch-Keeps : (k p : ℕ) (o : OperationType) → Keeps a (dispatch (http_do_recv sizes) a k p o)
    unfolding dispatch handle_recv
    dispatch-Keeps k p accept_posted =
        Keeps-bind a (do_accept_ex a p) _ (do_accept_ex-Keeps p) λ r. Keeps-give a true
    dispatch-Keeps k p recv_posted =
        Keeps-bind a (http_do_recv sizes a k p) _ (http_do_recv-Keeps k p) λ r.
          Keeps-if a r _ _ (Keeps-give a true)
            (Keeps-bind a (load_handle k) _ (load_handle-Keeps a k) λ h. Keeps-give a true)
    dispatch-Keeps k p send_posted = Keeps-give a true
    dispatch-Keeps k p null_posted = Keeps-give a true

    pub worker_round-Keeps : (c : Completion) → Keeps a (worker_round (http_do_recv sizes) a c)
    unfolding worker_round
    worker_round-Keeps c = Keeps-if a (not c.ok) _ _ (Keeps-give a true) (
        Keeps-if a (c.key == 0) _ _ (Keeps-give a false) (
          Keeps-if a (c.io == 0) _ _ (Keeps-give a true) (
            Keeps-bind a (load c.io) _ (load-Keeps a c.io) λ d.
              Keeps-if a (c.bytes == 0 && is_recv_or_send d.operationtype) _ _ (Keeps-give a true)
                (dispatch-Keeps c.key c.io d.operationtype))))
