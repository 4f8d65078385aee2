-- ===== src/Server/Iocp.antt =====
-- `IOCPServer`: posting and handling accepts, posting receives, and the base class's own answer.
pub mod Accept
use amsserver.Log.{ams_dbug_log, received_line}
use amsserver.Io.Buffer.{
  PerIoData, accept_posted, recv_posted, prepare, sent_bytes, reset_io_buf, send_posted,
  append_text, read_text,
}
use amsserver.Base.{
  ◌∷◌, none, some, true, false, done, crash, Option, ℕ, Bool, if◌then◌else◌, ◌==◌, ◌||◌, overrun,
  ◌&&◌, codes,
}
use amsserver.Io.World.{
  World, M, give, ◌>>=◌, ◌>>◌, Answers, load, start_operation, wait_heap_protect_mutex, load_handle,
  store, new_socket_handle, modify, lift, release_heap_protect_mutex, store_handle, remove_io_data,
  get_new_io_data,
}

-- closesocket
unfoldable pub close_socket : Option ℕ → M (Unit {0})
close_socket none w = done (tt, w)
close_socket (some s) w = done (tt, record w { closed = s ∷ w.closed })

-- AcceptEx on the io that is ready for it; a call that fails gives the socket back.
unfoldable pub accept_or_close : Answers → ℕ → M (Unit {0})
unfolding close_socket
accept_or_close a listeniodata w =
    (if a.accept_ex
        then start_operation
            (record { key = w.listenhandle; io = listeniodata; kind = accept_posted })
        else do
          close_socket a.wsa_socket
          d ← load listeniodata
          store listeniodata (record d { acceptsocket = none }))
      w

unfoldable pub post_accept_ex : Answers → ℕ → M (Unit {0})
unfolding accept_or_close
post_accept_ex a listeniodata = if listeniodata == 0 then give tt else do
  d ← load listeniodata
  store listeniodata (record d { acceptsocket = a.wsa_socket })
  elim a.wsa_socket [
    | none ↦ give tt
    | some s ↦ do
      store listeniodata (prepare accept_posted (reset_io_buf (record d { acceptsocket = some s })))
      accept_or_close a listeniodata
  ]

-- `DeriveAcceptEx` of the base class and of HttpServer.
unfoldable pub derive_accept_ex : ℕ → Bool
derive_accept_ex listeniodata = true

-- WSARecv takes `&databuf + bytestransfer` for its buffers: with bytes counted, that is behind the
-- one that there is.
unfoldable pub wsa_recv_from : Bool → ℕ → ℕ → PerIoData → M (Unit {0})
wsa_recv_from started connecthandle connectiodata d =
    if d.bytestransfer == 0
    then (if started
        then start_operation
            (record { key = connecthandle; io = connectiodata; kind = recv_posted })
        else give tt)
    else lift (crash overrun)

unfoldable pub post_recv : Bool → ℕ → ℕ → M (Unit {0})
unfolding wsa_recv_from
post_recv started connecthandle connectiodata =
    if connecthandle == 0 || connectiodata == 0 then give tt else do
      d ← load connectiodata
      store connectiodata (prepare recv_posted d)
      _ ← load_handle connecthandle
      wsa_recv_from started connecthandle connectiodata d

unfoldable pub do_accept_ex : Answers → ℕ → M Bool
unfolding derive_accept_ex
do_accept_ex a listeniodata = do
  d ← load listeniodata
  wait_heap_protect_mutex
  connecthandle ← new_socket_handle
  release_heap_protect_mutex
  store_handle connecthandle (record { ssocket = d.acceptsocket; ssocketaddr = a.remote })
  if a.associate && derive_accept_ex listeniodata
      then (do
        connectiodata ← get_new_io_data
        post_recv a.wsa_recv connecthandle connectiodata
        remove_io_data listeniodata
        newlisteniodata ← get_new_io_data
        post_accept_ex a newlisteniodata
        give true)
      else give false

-- WSASend, and the release of the io that follows it.
unfoldable pub send_and_remove : Bool → ℕ → ℕ → M Bool
send_and_remove started connecthandle connectiodata = do
  d ← load connectiodata
  h ← load_handle connecthandle
  if started
      then (do
        modify (λ w. record w { sent = (h.ssocket, sent_bytes d) ∷ w.sent })
        start_operation (record { key = connecthandle; io = connectiodata; kind = send_posted })
        remove_io_data connectiodata
        give true)
      else give false

-- `IOCPServer::PostSend`; its result is not looked at.
unfoldable pub post_send : Answers → ℕ → ℕ → M (Unit {0})
unfolding send_and_remove
post_send a connecthandle connectiodata =
    if connecthandle == 0 || connectiodata == 0 then give tt else do
      d ← load connectiodata
      built ← lift (append_text (prepare send_posted d) (codes "IOCP test"))
      store connectiodata built
      _ ← send_and_remove a.wsa_send connecthandle connectiodata
      give tt

-- `IOCPServer::DoRecv`
unfoldable pub do_recv : Answers → ℕ → ℕ → M Bool
do_recv a connecthandle connectiodata =
    if connecthandle == 0 || connectiodata == 0 then give false else do
      d ← load connectiodata
      text ← lift (read_text d)
      h ← load_handle connecthandle
      _ ← lift (ams_dbug_log (received_line h.ssocketaddr text))
      store connectiodata (reset_io_buf d)
      post_send a connecthandle connectiodata
      newconnectiodata ← get_new_io_data
      post_recv a.wsa_recv connecthandle newconnectiodata
      give true
