-- ===== src/Io/Buffer.antt =====
-- The class `PerIOData`. Its buffer is the list of the bytes written, from the first on; the rest
-- of its `buffersize` bytes are zero.
use amsserver.Crt.Text.{strcat_s}
use amsserver.Base.{
  ◌>>=◌, ◌∷◌, [], none, suc, done, crash, ℕ, Outcome, Bytes, Option, if◌then◌else◌, ◌++◌, take, leb,
  drop, replicate, length, ◌-◌, overrun,
}
use amsserver.Crt.Scan.{before}

abbrev pub buffersize : ℕ
buffersize = 1500

-- OPERATION_TYPE
pub data OperationType : Type 0 where
  accept_posted recv_posted send_posted null_posted : OperationType

pub record PerIoData : Type 0 where
  -- What the system keeps in the WSAOVERLAPPED; 0 when cleared.
  pub overlapped : ℕ
  -- `none` is INVALID_SOCKET.
  pub acceptsocket : Option ℕ
  pub buf : Bytes
  pub len : ℕ
  pub bytestransfer : ℕ
  pub operationtype : OperationType

-- The constructor.
abbrev pub new_io : PerIoData
new_io = record {
  overlapped = 0;
  acceptsocket = none;
  buf = [];
  len = buffersize;
  bytestransfer = 0;
  operationtype = null_posted;
}

abbrev pub reset_io_buf : PerIoData → PerIoData
reset_io_buf d = record d { len = buffersize; buf = []; bytestransfer = 0 }

abbrev pub reset_overlapped : PerIoData → PerIoData
reset_overlapped d = record d { overlapped = 0 }

-- `ResetOverLapped(); operationtype = …;`, before an operation is started.
abbrev pub prepare : OperationType → PerIoData → PerIoData
prepare kind d = record (reset_overlapped d) { operationtype = kind }

-- The text in the buffer, as strlen and the functions on texts see it. A buffer with no NUL is read
-- past its end.
unfoldable pub read_text : PerIoData → Outcome Bytes
read_text d =
    if leb buffersize (length (before 0 d.buf)) then crash overrun else done (before 0 d.buf)

-- A text and its NUL over the old bytes.
unfoldable pub over : Bytes → Bytes → Bytes
over text [] = text
over text (x ∷ old) = text ++ 0 ∷ x ∷ old

-- `strcat_s(databuf.buf, databuf.len, more)`
unfoldable pub append_text : PerIoData → Bytes → Outcome PerIoData
unfolding over
append_text d more = do
  text ← read_text d
  longer ← strcat_s buffersize d.len text more
  done (record d { buf = over longer (drop (suc (length longer)) d.buf) })

-- The system has stored what it received.
unfoldable pub receive : PerIoData → Bytes → PerIoData
receive d bytes = record d { buf = bytes ++ drop (length bytes) d.buf }

-- What WSASend is given: the first `len` bytes of the buffer.
unfoldable pub sent_bytes : PerIoData → Bytes
sent_bytes d = take d.len d.buf ++ replicate (d.len - length d.buf) 0
