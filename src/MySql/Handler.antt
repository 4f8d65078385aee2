-- ===== src/MySql/Handler.antt =====
-- The class `MySqlHttpData`. A printed table is dropped; that it is printed without a fault is
-- kept.
use amsserver.HttpData.Parse.{parse_recv_buf}
use amsserver.MySql.Table.{show_query_details}
use amsserver.Crt.Text.{strcat_s, sprintf_quoted}
use amsserver.HttpData.Build.{
  Methods, base_auth_by_chip_id, base_auth_by_mac, base_activate_sum, base_activate_by_stbid,
  base_activate_by_chip_id, base_activate_by_mac, append_payload, build_payload,
}
use amsserver.Crt.Number.{Int32, natural, negative, itoa_s, to_int32}
use amsserver.HttpData.State.{
  k_project_id_is_wrong, k_vendor_id_is_wrong, HttpData, Errorcode, refuse, new, stbid_length,
}
use amsserver.Base.{
  [], none, some, true, false, done, ℕ, Bytes, Option, Outcome, if◌then◌else◌, Bool, ◌==◌, length,
  ltb, ◌>>=◌, codes, ◌+◌,
}
use amsserver.MySql.Client.{ResultSet, Mysql}

abbrev pub query_string_len : ℕ
query_string_len = 256

abbrev pub name_length : ℕ
name_length = 32

abbrev pub sum_length : ℕ
sum_length = 8

abbrev pub show_query_level : ℕ
show_query_level = 1

-- `strcat_s(query, QUERY_STRING_LEN, text)`
unfoldable pub append_query : Bytes → Bytes → Outcome Bytes
append_query = strcat_s query_string_len query_string_len

-- The same size is passed for the shorter buffers of the two names.
unfoldable pub append_name : Bytes → Bytes → Outcome Bytes
append_name = strcat_s name_length query_string_len

pub record MySqlHttpData (C : Type 0) : Type 0 where
  pub http : HttpData
  pub mysql : C
  pub databasename : Bytes
  pub tablename : Bytes

-- `sendflag = kErrorFlag; errorcode = …;` on the base object.
abbrev pub refuse_http : {C : Type 0} → MySqlHttpData C → Errorcode → MySqlHttpData C
refuse_http s code = record s { http = refuse s.http code }

module _ (m : Mysql) where
  open m use {
    Connection, mysql_init, mysql_real_connect, mysql_real_query, mysql_select_db,
    mysql_store_result,
  }

  unfoldable pub new_mysql : Bytes → Outcome (MySqlHttpData Connection)
  new_mysql comedata = do
    http ← new comedata
    done (record { http = http; mysql = mysql_init; databasename = []; tablename = [] })

  -- mysql_real_query, and mysql_store_result if it succeeds; `none` where the code returns FALSE.
  unfoldable pub run_query : Connection → Bytes → Connection × Option ResultSet
  run_query c query =
      let (c', sqlerror) = mysql_real_query c query in
      if sqlerror == 0 then mysql_store_result c' else (c', none)

  -- `ConnectDatabase`, from its end. The table of the vendor is there, or it is an error.
  unfoldable pub after_table :
      MySqlHttpData Connection → Option ResultSet → Outcome (MySqlHttpData Connection × Bool)
  after_table s none = done (s, false)
  after_table s (some result) =
      if length result.rows == 0
      then done (refuse_http s k_vendor_id_is_wrong, true)
      else do _ ← show_query_details show_query_level result; done (s, true)

  unfoldable pub find_table : MySqlHttpData Connection → Outcome (MySqlHttpData Connection × Bool)
  unfolding after_table run_query
  find_table s = do
    query ←
        append_query [] (codes "SELECT table_name FROM information_schema.TABLES WHERE table_name=")
    header ← append_name s.tablename (codes "VendorID_")
    tablename ← append_name header s.http.vendorid
    temptablename ← sprintf_quoted (name_length + 3) tablename
    query' ← append_query query temptablename
    let (c, answer) = run_query s.mysql query'
    after_table (record s { mysql = c; tablename = tablename }) answer

  -- The text of the "USE" query is built and not sent.
  unfoldable pub use_database :
      MySqlHttpData Connection → Bytes → Outcome (MySqlHttpData Connection × Bool)
  unfolding find_table
  use_database s tempdatabasename = do
    query ← append_query [] (codes "USE ")
    _ ← append_query query tempdatabasename
    let (c, sqlerror) = mysql_select_db s.mysql s.databasename
    if sqlerror == 0
        then find_table (record s { mysql = c })
        else done (record s { mysql = c }, false)

  unfoldable pub after_database :
      MySqlHttpData Connection
      → Bytes
      → Option ResultSet
      → Outcome (MySqlHttpData Connection × Bool)
  after_database s tempdatabasename none = done (s, false)
  after_database s tempdatabasename (some result) =
      if length result.rows == 0
      then done (refuse_http s k_project_id_is_wrong, true)
      else do _ ← show_query_details show_query_level result; use_database s tempdatabasename

  unfoldable pub find_database :
      MySqlHttpData Connection → Outcome (MySqlHttpData Connection × Bool)
  unfolding after_database run_query
  find_database s = do
    query ← append_query [] (codes "SELECT schema_name FROM SCHEMATA WHERE schema_name=")
    header ← append_name s.databasename (codes "ProjectID_")
    databasename ← append_name header s.http.projectid
    tempdatabasename ← sprintf_quoted (name_length + 3) databasename
    query' ← append_query query tempdatabasename
    let (c, answer) = run_query s.mysql query'
    after_database (record s { mysql = c; databasename = databasename }) tempdatabasename answer

  unfoldable pub connect_database :
      MySqlHttpData Connection → Outcome (MySqlHttpData Connection × Bool)
  connect_database s =
      let (c, connected) = mysql_real_connect s.mysql in
      if connected
      then find_database (record s { mysql = c })
      else done (record s { mysql = c }, false)

  -- The count of rows as an `int`, appended behind a label.
  unfoldable pub append_count :
      MySqlHttpData Connection → Bytes → Int32 → Outcome (MySqlHttpData Connection × Bool)
  append_count s label count = do
    (labelled, _) ← append_payload s.http label
    text ← itoa_s sum_length count
    (http, _) ← append_payload labelled text
    done (record s { http = http }, true)

  unfoldable pub after_sum :
      MySqlHttpData Connection → Option ResultSet → Outcome (MySqlHttpData Connection × Bool)
  unfolding append_count
  after_sum s none = done (s, false)
  after_sum s (some result) = do
    _ ← show_query_details show_query_level result
    append_count s (codes "AuthSum=") (to_int32 (length result.rows))

  unfoldable pub mysql_auth_sum :
      MySqlHttpData Connection → Outcome (MySqlHttpData Connection × Bool)
  unfolding after_sum run_query
  mysql_auth_sum s = do
    select ← append_query [] (codes "SELECT * FROM ")
    query ← append_query select s.tablename
    let (c, answer) = run_query s.mysql query
    after_sum (record s { mysql = c }) answer

  -- `1 > authstate`
  unfoldable pub is_below_one : Int32 → Bool
  is_below_one (natural n) = ltb n 1
  is_below_one (negative n) = true

  unfoldable pub after_state :
      MySqlHttpData Connection → Option ResultSet → Outcome (MySqlHttpData Connection × Bool)
  unfolding append_count is_below_one
  after_state s none = done (s, false)
  after_state s (some result) = do
    _ ← show_query_details show_query_level result
    if is_below_one (to_int32 (length result.rows))
        then done (s, false)
        else append_count s (codes "AuthState=") (to_int32 (length result.rows))

  unfoldable pub mysql_auth_by_stbid :
      MySqlHttpData Connection → Outcome (MySqlHttpData Connection × Bool)
  unfolding after_state run_query
  mysql_auth_by_stbid s = do
    select ← append_query [] (codes "SELECT * FROM ")
    table ← append_query select s.tablename
    condition ← append_query table (codes " WHERE stbid=")
    tempstbid ← sprintf_quoted (stbid_length + 3) s.http.stbid
    query ← append_query condition tempstbid
    let (c, answer) = run_query s.mysql query
    after_state (record s { mysql = c }) answer

  -- A method that the class inherits.
  abbrev pub inherited :
      (HttpData → Outcome (HttpData × Bool))
      → MySqlHttpData Connection
      → Outcome (MySqlHttpData Connection × Bool)
  inherited f s = do (http, r) ← f s.http; done (record s { http = http }, r)

  abbrev pub mysql_methods : Methods (MySqlHttpData Connection)
  mysql_methods = record {
    base = λ s. s.http;
    with_base = λ s d. record s { http = d };
    build_query_auth_sum = mysql_auth_sum;
    build_query_auth_by_stbid = mysql_auth_by_stbid;
    build_query_auth_by_chip_id = inherited base_auth_by_chip_id;
    build_query_auth_by_mac = inherited base_auth_by_mac;
    build_query_activate_sum = inherited base_activate_sum;
    build_query_activate_by_stbid = inherited base_activate_by_stbid;
    build_query_activate_by_chip_id = inherited base_activate_by_chip_id;
    build_query_activate_by_mac = inherited base_activate_by_mac;
  }

  unfoldable pub mysql_handle_http_data :
      (Bytes → ℕ) → MySqlHttpData Connection → Outcome (MySqlHttpData Connection × Bool)
  mysql_handle_http_data sizes s = do
    http ← parse_recv_buf sizes s.http
    (t, connected) ← connect_database (record s { http = http })
    if connected then build_payload mysql_methods t else done (t, false)
