-- ===== src/Tests/Databases.antt =====
-- Tests of the database handler and of the texts that leave the program.
use amsserver.MySql.Aligned.{lines-Aligned}
use amsserver.MySql.Table.{column_widths, column_width, name_line, rule, row_line}
use amsserver.MySql.EndToEnd.{incoming, mysql_handle-sum}
use amsserver.HttpData.RoundTrip.{IsWritable, request}
use amsserver.MySql.Connected.{KnowsVendor, connect_database-Connected}
use amsserver.HttpData.Items.{Items, IsAccepted}
use amsserver.MySql.Counts.{IsModest}
use amsserver.MySql.Unknown.{KnowsNone, mysql_handle-unknown}
use amsserver.Singleton.{
  construct, Valid, Reach, destroy, Reach-Valid, step, remove, start, make, unmake,
}
use amsserver.Log.{FileLog, log_all, log_all-content}
use amsserver.Crt.Number.{decimal, digits_onto}
use amsserver.HttpData.Limits.{HasLimits}
use amsserver.HttpData.Protocol.{IsFresh}
use amsserver.MySql.Handler.{run_query, MySqlHttpData, mysql_handle_http_data, connect_database}
use amsserver.Base.{
  refl, ◌≡◌, ◌∷◌, [], true, false, done, inl, Bytes, Returns, codes, ℕ, arith, ◌++◌, inr, some,
  List, Option, length,
}
use amsserver.Tests.{large, holding, constant_mysql, no_rows, two_rows}

-- A connected handler for the vendor V1.
abbrev handler : Bytes → Bytes → MySqlHttpData ℕ
handler text tablename = record {
  http = record (holding text) { projectid = codes "P1"; vendorid = codes "V1" };
  mysql = 0;
  databasename = [];
  tablename = tablename;
}

silent_handler-KnowsNone : KnowsNone (constant_mysql no_rows) 0
unfolding run_query
silent_handler-KnowsNone = record {
  connected = refl;
  none_found = λ projectid. (1, no_rows, refl, refl);
}

handler-IsFresh : IsFresh (holding (codes "Activate=box7"))
handler-IsFresh = record { small = ground arith; no_payload = refl; no_flag = refl }

handler-HasLimits :
    HasLimits (record (holding []) { projectid = codes "P1"; vendorid = codes "V1" })
handler-HasLimits = record {
  project_fits = ground arith;
  vendor_fits = ground arith;
  stb_fits = ground arith;
  chip_fits = ground arith;
  mac_fits = ground arith;
}

mysql_handle-unknown_example :
    Returns
      (mysql_handle_http_data (constant_mysql no_rows) large (handler (codes "Activate=box7") []))
      (λ (u, r). (r ≡ true) × (u.http.payloadbuf ≡ codes "ErrorCode=ProjectIDIsWrong"))
mysql_handle-unknown_example =
    mysql_handle-unknown (constant_mysql no_rows) large (handler (codes "Activate=box7") [])
      silent_handler-KnowsNone (record { small = ground arith; no_payload = refl; no_flag = refl })
      (record {
        project_fits = ground arith;
        vendor_fits = ground arith;
        stb_fits = ground arith;
        chip_fits = ground arith;
        mac_fits = ground arith;
      })
      refl

test_decimal : decimal 1024 ≡ codes "1024"
unfolding decimal digits_onto
test_decimal = refl

abbrev open_log : FileLog
open_log = record { logfd = true; locked = false; content = codes "a" }

log_all-content_example :
    log_all ((true, codes "b") ∷ (false, codes "x") ∷ (true, codes "c") ∷ []) open_log
    ≡ done (record open_log { content = codes "abc" })
log_all-content_example =
    log_all-content ((true, codes "b") ∷ (false, codes "x") ∷ (true, codes "c") ∷ []) open_log refl

-- Two servers are made, and the second is destroyed.
one_server : Reach (record { pointer = 4; alive = 4 ∷ [] })
unfolding construct
one_server = step (start (record { pointer = 0; alive = [] }) refl) (make 4 (ground arith) refl)

survivor : Reach (record { pointer = 4; alive = 4 ∷ [] })
unfolding construct destroy remove
survivor = step (step one_server (make 8 (ground arith) refl)) (unmake 8 (inl refl) refl)

Reach-Valid_example : Valid (record { pointer = 4; alive = 4 ∷ [] })
Reach-Valid_example = Reach-Valid (record { pointer = 4; alive = 4 ∷ [] }) survivor

two_rows-IsModest : IsModest two_rows
two_rows-IsModest = record { columns = ground arith; rows_few = ground arith }

-- The database whose every answer has two rows knows the project and the vendor.
two_rows-KnowsVendor :
    (projectid vendorid : Bytes) → KnowsVendor (constant_mysql two_rows) 0 3 projectid vendorid
unfolding run_query
two_rows-KnowsVendor projectid vendorid = record {
  connected = refl;
  databases = two_rows;
  found = 1;
  project_found = refl;
  databases_some = ground arith;
  databases_modest = two_rows-IsModest;
  selected = 2;
  database_selected = refl;
  tables = two_rows;
  vendor_found = refl;
  tables_some = ground arith;
  tables_modest = two_rows-IsModest;
}

abbrev no_box : Items
no_box = record { project = codes "P1"; vendor = codes "V1"; stb = []; chip = []; mac = [] }

no_box-IsAccepted : IsAccepted no_box
no_box-IsAccepted = record {
  project_given = ground arith;
  project_fits = ground arith;
  vendor_given = ground arith;
  vendor_fits = ground arith;
  stb_fits = ground arith;
  chip_fits = ground arith;
  mac_whole = inr refl;
}

no_box-IsWritable : IsWritable no_box
no_box-IsWritable = record {
  project_plain = ground arith;
  vendor_plain = ground arith;
  stb_plain = ground arith;
  chip_plain = ground arith;
  mac_plain = ground arith;
}

mysql_handle-sum_example :
    Returns
      (mysql_handle_http_data
        (constant_mysql two_rows)
        large
        (incoming 0 (holding (request no_box))))
      (λ (u, b). (b ≡ true) × (u.http.payloadbuf ≡ codes "AuthSum=" ++ decimal 2))
unfolding run_query
mysql_handle-sum_example =
    mysql_handle-sum (constant_mysql two_rows) large no_box (holding (request no_box)) 0 3
      (λ k. ground arith) no_box-IsAccepted no_box-IsWritable refl refl
      (two_rows-KnowsVendor (codes "P1") (codes "V1")) two_rows 4 refl refl refl two_rows-IsModest
      refl

connect_database-Connected_example :
    connect_database (constant_mysql two_rows) (handler [] [])
    ≡ done (
      record (handler [] []) {
        mysql = 3;
        databasename = codes "ProjectID_P1";
        tablename = codes "VendorID_V1";
      },
      true,
    )
connect_database-Connected_example =
    connect_database-Connected (constant_mysql two_rows) (handler [] []) 3 handler-HasLimits refl
      refl (two_rows-KnowsVendor (codes "P1") (codes "V1"))

abbrev first_cells : List (Option Bytes)
first_cells = some (codes "1") ∷ some (codes "box7") ∷ []

abbrev later_cells : List (Option Bytes)
later_cells = some (codes "2") ∷ some (codes "b") ∷ []

lines-Aligned_example :
    (length (name_line (column_widths two_rows.names first_cells) two_rows.names)
      ≡ length (rule (column_widths two_rows.names first_cells)))
    × (length (row_line (column_widths two_rows.names first_cells) first_cells)
        ≡ length (rule (column_widths two_rows.names first_cells)))
    × (length (row_line (column_widths two_rows.names first_cells) later_cells)
        ≡ length (rule (column_widths two_rows.names first_cells)))
unfolding column_widths column_width
lines-Aligned_example =
    lines-Aligned two_rows.names first_cells later_cells (ground arith) (ground arith)
