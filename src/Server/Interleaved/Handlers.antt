-- ===== src/Server/Interleaved/Handlers.antt =====
-- The handlers of the workers, step by step. WSASend, with the bytes that it takes, is one call.
use amsserver.Crt.Text.{strstr}
use amsserver.Log.{ams_dbug_log, received_line}
use amsserver.Server.Http.{http_get_length, check_recv_buf_end}
use amsserver.Server.Response.{build_send}
use amsserver.Crt.Scan.{store_token, scan_query}
use amsserver.HttpData.State.{HttpData, new}
use amsserver.Io.Buffer.{
  null_posted, accept_posted, send_posted, recv_posted, PerIoData, OperationType, prepare,
  sent_bytes, reset_io_buf, read_text,
}
use amsserver.Base.{
  if◌then◌else◌, ◌∷◌, [], none, some, true, false, ℕ, Bool, Bytes, ◌==◌, ◌&&◌, not, overrun, ◌||◌,
  codes, length,
}
use amsserver.Server.Interleaved.Steps.{Steps, gives, breaks, ◌>>=◌, ◌>>◌, call, pure, wait_mutex}
use amsserver.Server.Iocp.{close_socket, derive_accept_ex}
use amsserver.Server.Worker.{Completion, is_recv_or_send}
use amsserver.Io.World.{
  M, Answers, load, store, load_handle, store_handle, new_socket_handle, get_new_io_data, delete_io,
  start_operation, release_heap_protect_mutex, SocketHandle,
}

unfoldable pub remove_io_data_steps : ℕ → Steps (Unit {0})
remove_io_data_steps p =
    if p == 0 then gives tt else do wait_mutex; call (delete_io p); call release_heap_protect_mutex

-- AcceptEx with the socket of the listening handle.
unfoldable pub start_accept : ℕ → M (Unit {0})
unfolding start_operation
start_accept listeniodata w =
    start_operation (record { key = w.listenhandle; io = listeniodata; kind = accept_posted }) w

unfoldable pub accept_or_close_steps : Answers → ℕ → Steps (Unit {0})
unfolding start_accept
accept_or_close_steps a listeniodata = if a.accept_ex then call (start_accept listeniodata) else do
  call (close_socket a.wsa_socket)
  d ← call (load listeniodata)
  call (store listeniodata (record d { acceptsocket = none }))

unfoldable pub post_accept_ex_steps : Answers → ℕ → Steps (Unit {0})
unfolding accept_or_close_steps
post_accept_ex_steps a listeniodata = if listeniodata == 0 then gives tt else do
  d ← call (load listeniodata)
  call (store listeniodata (record d { acceptsocket = a.wsa_socket }))
  elim a.wsa_socket [
    | none ↦ gives tt
    | some s ↦ do
      call (
          store listeniodata
            (prepare accept_posted (reset_io_buf (record d { acceptsocket = some s }))))
      accept_or_close_steps a listeniodata
  ]

unfoldable pub wsa_recv_from_steps : Bool → ℕ → ℕ → PerIoData → Steps (Unit {0})
wsa_recv_from_steps started connecthandle connectiodata d =
    if d.bytestransfer == 0
    then (if started
        then call (
            start_operation
              (record { key = connecthandle; io = connectiodata; kind = recv_posted }))
        else gives tt)
    else breaks overrun

unfoldable pub post_recv_steps : Bool → ℕ → ℕ → Steps (Unit {0})
unfolding wsa_recv_from_steps
post_recv_steps started connecthandle connectiodata =
    if connecthandle == 0 || connectiodata == 0 then gives tt else do
      d ← call (load connectiodata)
      call (store connectiodata (prepare recv_posted d))
      _ ← call (load_handle connecthandle)
      wsa_recv_from_steps started connecthandle connectiodata d

unfoldable pub do_accept_ex_steps : Answers → ℕ → Steps Bool
unfolding derive_accept_ex remove_io_data_steps post_recv_steps post_accept_ex_steps
do_accept_ex_steps a listeniodata = do
  d ← call (load listeniodata)
  wait_mutex
  connecthandle ← call new_socket_handle
  call release_heap_protect_mutex
  call (store_handle connecthandle (record { ssocket = d.acceptsocket; ssocketaddr = a.remote }))
  if a.associate && derive_accept_ex listeniodata
      then (do
        connectiodata ← call get_new_io_data
        post_recv_steps a.wsa_recv connecthandle connectiodata
        remove_io_data_steps listeniodata
        newlisteniodata ← call get_new_io_data
        post_accept_ex_steps a newlisteniodata
        gives true)
      else gives false

-- WSASend on the socket of a handle.
unfoldable pub wsa_send : SocketHandle → PerIoData → ℕ → ℕ → M (Unit {0})
unfolding start_operation
wsa_send h d connecthandle connectiodata w =
    start_operation (record { key = connecthandle; io = connectiodata; kind = send_posted })
      (record w { sent = (h.ssocket, sent_bytes d) ∷ w.sent })

unfoldable pub send_and_remove_steps : Bool → ℕ → ℕ → Steps Bool
unfolding wsa_send remove_io_data_steps
send_and_remove_steps started connecthandle connectiodata = do
  d ← call (load connectiodata)
  h ← call (load_handle connecthandle)
  if started
      then (do
        call (wsa_send h d connecthandle connectiodata)
        remove_io_data_steps connectiodata
        gives true)
      else gives false

unfoldable pub http_post_send_steps : (Bytes → ℕ) → Answers → ℕ → ℕ → HttpData → Steps Bool
unfolding send_and_remove_steps
http_post_send_steps sizes a connecthandle connectiodata httpdata =
    if connecthandle == 0 || connectiodata == 0 then gives false else do
      d ← call (load connectiodata)
      (built, r) ← pure (build_send sizes (prepare send_posted d) httpdata)
      call (store connectiodata built)
      if r
          then (do
            _ ← pure (read_text built)
            send_and_remove_steps a.wsa_send connecthandle connectiodata)
          else gives false

unfoldable pub post_new_recv_steps : Answers → ℕ → Steps Bool
unfolding post_recv_steps
post_new_recv_steps a connecthandle = do
  newconnectiodata ← call get_new_io_data
  post_recv_steps a.wsa_recv connecthandle newconnectiodata
  gives true

unfoldable pub answer_get_steps : (Bytes → ℕ) → Answers → ℕ → ℕ → PerIoData → Bytes → Steps Bool
unfolding http_post_send_steps post_new_recv_steps
answer_get_steps sizes a connecthandle connectiodata d text = do
  getbuf ← pure (store_token http_get_length (sizes (codes "GET")) [] (scan_query text))
  httpdata ← pure (new getbuf)
  call (store connectiodata (reset_io_buf d))
  _ ← http_post_send_steps sizes a connecthandle connectiodata httpdata
  post_new_recv_steps a connecthandle

unfoldable pub http_do_recv_steps : (Bytes → ℕ) → Answers → ℕ → ℕ → Steps Bool
unfolding answer_get_steps
http_do_recv_steps sizes a connecthandle connectiodata =
    if connecthandle == 0 || connectiodata == 0 then gives false else do
      d ← call (load connectiodata)
      text ← pure (read_text d)
      call (store connectiodata (record d { bytestransfer = length text }))
      complete ← pure (check_recv_buf_end (length text) text)
      if complete
          then (do
            h ← call (load_handle connecthandle)
            _ ← pure (ams_dbug_log (received_line h.ssocketaddr text))
            elim (strstr text (codes "GET")) [
              | none ↦ gives false
              | some _ ↦ answer_get_steps sizes a connecthandle connectiodata d text
            ])
          else do
            post_recv_steps a.wsa_recv_again connecthandle connectiodata
            post_new_recv_steps a connecthandle

unfoldable pub handle_recv_steps : (Bytes → ℕ) → Answers → ℕ → ℕ → Steps Bool
unfolding http_do_recv_steps
handle_recv_steps sizes a sockethandle periodata = do
  received ← http_do_recv_steps sizes a sockethandle periodata
  if received then gives true else do _ ← call (load_handle sockethandle); gives true

unfoldable pub dispatch_steps : (Bytes → ℕ) → Answers → ℕ → ℕ → OperationType → Steps Bool
unfolding handle_recv_steps do_accept_ex_steps
dispatch_steps sizes a sockethandle periodata accept_posted = do
  _ ← do_accept_ex_steps a periodata
  gives true
dispatch_steps sizes a sockethandle periodata recv_posted =
    handle_recv_steps sizes a sockethandle periodata
dispatch_steps sizes a sockethandle periodata send_posted = gives true
dispatch_steps sizes a sockethandle periodata null_posted = gives true

unfoldable pub worker_round_steps : (Bytes → ℕ) → Answers → Completion → Steps Bool
unfolding dispatch_steps
worker_round_steps sizes a c =
    if not c.ok
    then gives true
    else if c.key == 0
    then gives false
    else if c.io == 0
    then gives true
    else do
      d ← call (load c.io)
      if c.bytes == 0 && is_recv_or_send d.operationtype
          then gives true
          else dispatch_steps sizes a c.key c.io d.operationtype
