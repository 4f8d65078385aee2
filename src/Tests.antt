-- ===== src/Tests.antt =====
-- Concrete data for the tests: requests, a process with one connection, and two databases.
pub mod Requests
pub mod Handlers
pub mod Databases
pub mod Startup
pub mod Histories
pub mod Dialogs
pub mod Systems
pub mod DatabaseAnswers
pub mod Threads
use amsserver.Base.{
  ℕ, Bytes, codes, none, some, true, false, ◌++◌, [], ◌∷◌, if◌then◌else◌, ◌==◌, ◌+◌,
}
use amsserver.HttpData.Items.{Items}
use amsserver.HttpData.State.{HttpData, k_null_flag, k_null_error}
use amsserver.HttpData.RoundTrip.{request}
use amsserver.Io.Buffer.{PerIoData, new_io, recv_posted, prepare}
use amsserver.Io.World.{World, SocketHandle, Answers}
use amsserver.MySql.Client.{Mysql, ResultSet}

-- sscanf_s reads 2000 for every size.
abbrev pub large : Bytes → ℕ
large call = 2000

abbrev pub box : Items
box = record {
  project = codes "P1";
  vendor = codes "V1";
  stb = codes "box7";
  chip = [];
  mac = codes "001122334455";
}

-- An object that holds a text and nothing else.
abbrev pub holding : Bytes → HttpData
holding text = record {
  recvdatabuf = text;
  payloadbuf = [];
  sendflag = k_null_flag;
  errorcode = k_null_error;
  projectid = [];
  vendorid = [];
  stbid = [];
  chipid = [];
  macaddr = [];
}

abbrev pub peer : SocketHandle
peer = record { ssocket = some 5; ssocketaddr = codes "10.0.0.2:4000" }

-- An io whose receive has brought a message.
abbrev pub received : Bytes → PerIoData
received text = record (prepare recv_posted new_io) { buf = text }

-- A process with one io, at 3, and one handle, at 7.
abbrev pub with_io : PerIoData → World
with_io d = record {
  ios = λ p. if p == 3 then some d else none;
  next_io = 10;
  handles = λ k. if k == 7 then some peer else none;
  next_handle = 20;
  pending = [];
  sent = [];
  closed = [];
  heap_locked = false;
  listenhandle = 1;
}

abbrev pub willing : Answers
willing = record {
  wsa_socket = some 9;
  accept_ex = true;
  associate = true;
  wsa_recv = true;
  wsa_recv_again = true;
  wsa_send = true;
  remote = codes "10.0.0.2:4000";
}

abbrev pub get_request : Bytes
get_request = codes "GET /?Query=0&ProjectID=P1&VendorID=V1 HTTP/1.1\r\n\r\n"

-- A database that gives the same result to every query; its connection counts them.
abbrev pub constant_mysql : ResultSet → Mysql
constant_mysql r = record {
  Connection = ℕ;
  mysql_init = 0;
  mysql_real_connect = λ c. (c, true);
  mysql_real_query = λ c query. (1 + c, 0);
  mysql_select_db = λ c name. (1 + c, 0);
  mysql_store_result = λ c. (c, some r);
}

abbrev pub no_rows : ResultSet
no_rows = record { names = codes "id" ∷ []; rows = [] }

abbrev pub two_rows : ResultSet
two_rows = record {
  names = codes "id" ∷ codes "stb" ∷ [];
  rows = (some (codes "1") ∷ some (codes "box7") ∷ []) ∷ (some (codes "2") ∷ none ∷ []) ∷ [];
}
