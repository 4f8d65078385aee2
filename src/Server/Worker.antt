-- ===== src/Server/Worker.antt =====
-- One round of `IOCPServer::WorkerThread`, for a class with its own `DoRecv`.
pub mod Released
pub mod Thread
pub mod Kept
pub mod Calls
pub mod Handlers
pub mod Received
pub mod History
use amsserver.Io.Buffer.{OperationType, send_posted, accept_posted, null_posted, recv_posted}
use amsserver.Base.{true, false, Bool, ℕ, if◌then◌else◌, not, ◌==◌, ◌&&◌}
use amsserver.Io.World.{World, M, give, ◌>>=◌, ◌>>◌, Answers, load_handle, load}
use amsserver.Server.Iocp.{do_accept_ex}

-- What GetQueuedCompletionStatus returns. A null `key` is the signal to exit.
pub record Completion : Type 0 where
  pub ok : Bool
  pub key : ℕ
  pub io : ℕ
  pub bytes : ℕ

abbrev pub is_recv_or_send : OperationType → Bool
is_recv_or_send accept_posted = false
is_recv_or_send recv_posted = true
is_recv_or_send send_posted = true
is_recv_or_send null_posted = false

module _ (do_recv : Answers → ℕ → ℕ → M Bool) where
  -- A receive that fails is logged with the address of its handle.
  unfoldable pub handle_recv : Answers → ℕ → ℕ → M Bool
  handle_recv a sockethandle periodata = do
    received ← do_recv a sockethandle periodata
    if received then give true else do _ ← load_handle sockethandle; give true

  -- The `switch`; the result is `keeprunning`.
  unfoldable pub dispatch : Answers → ℕ → ℕ → OperationType → M Bool
  unfolding handle_recv
  dispatch a sockethandle periodata accept_posted = do _ ← do_accept_ex a periodata; give true
  dispatch a sockethandle periodata recv_posted = handle_recv a sockethandle periodata
  dispatch a sockethandle periodata send_posted = give true
  dispatch a sockethandle periodata null_posted = give true

  unfoldable pub worker_round : Answers → Completion → M Bool
  unfolding dispatch
  worker_round a c =
      if not c.ok
      then give true
      else if c.key == 0
      then give false
      else if c.io == 0
      then give true
      else do
        d ← load c.io
        if c.bytes == 0 && is_recv_or_send d.operationtype
            then give true
            else dispatch a c.key c.io d.operationtype
