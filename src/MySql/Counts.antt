-- ===== src/MySql/Counts.antt =====
-- The counts that the handler reports.
use amsserver.Crt.Bounds.{length-decimal}
use amsserver.HttpData.Limits.{HasLimits}
use amsserver.MySql.Handler.{MySqlHttpData, append_count, after_sum, run_query, mysql_auth_sum}
use amsserver.HttpData.State.{HttpData}
use amsserver.HttpData.Build.{append_payload}
use amsserver.Crt.Number.{to_int32, itoa_s, print_int, natural, decimal}
use amsserver.MySql.Table.{
  show_rows, show_query_details, column_limit, to_uchar, rule, column_widths, name_line, row_lines,
}
use amsserver.MySql.Client.{ResultSet, Mysql}
use amsserver.Base.{
  refl, ◌≡◌, ◌∷◌, [], some, true, false, done, length, List, Bytes, ℕ, ◌≤◌, Option, take_all, ◌<◌,
  ◌+◌, ◌++◌, codes, arith, ltb,
}
use amsserver.MySql.Queries.{sum_query, mysql_auth_sum-asks}

-- A result that can be shown and whose rows can be printed in the eight bytes of the buffer.
pub record IsModest (r : ResultSet) : Type 0 where
  pub columns : length r.names ≤ column_limit
  pub rows_few : length r.rows < 10000000

show_rows-done :
    (names : List Bytes) (rows : List (List (Option Bytes)))
    → length names ≤ column_limit
    → (b : Bytes) × (show_rows names rows ≡ done b)
unfolding show_rows
show_rows-done names [] h = (codes "\n", refl)
show_rows-done names (r ∷ rows) h = (
  codes "\n"
      ++ (rule (column_widths names r)
          ++ (name_line (column_widths names r) names
              ++ row_lines (column_widths names r) (r ∷ rows))),
  rw few refl,
)
  where
    few : ltb column_limit (to_uchar (length names)) ≡ false
    few = ground arith

pub show_query_details-done :
    (r : ResultSet) → IsModest r → (b : Bytes) × (show_query_details 1 r ≡ done b)
unfolding show_query_details
show_query_details-done r m =
    rw (take_all (to_uchar (length r.names)) r.names (omega (arith, m.columns)))
      (show_rows-done r.names r.rows m.columns)

to_int32-natural : (n : ℕ) → n < 10000000 → to_int32 n ≡ natural n
unfolding to_int32
to_int32-natural n h = ground arith

itoa_s-done : (n : ℕ) → n < 10000000 → itoa_s 8 (natural n) ≡ done (decimal n)
unfolding itoa_s print_int
itoa_s-done n h = ground (arith, length-decimal 6 n h)

pub append_payload-done :
    (d : HttpData) (t : Bytes)
    → length d.payloadbuf + length t < 1024
    → append_payload d t ≡ done (record d { payloadbuf = d.payloadbuf ++ t }, true)
unfolding append_payload
append_payload-done d t h = ground arith

module _ (m : Mysql) (s : MySqlHttpData m.Connection) (r : ResultSet) (modest : IsModest r) where
  pub append_count-done :
      (label : Bytes)
      → s.http.payloadbuf ≡ []
      → length label ≤ 100
      → append_count m s label (to_int32 (length r.rows))
        ≡ done (
          record s { http = record s.http { payloadbuf = label ++ decimal (length r.rows) } },
          true,
        )
  unfolding append_count
  append_count-done label e h = rw (append_payload-done s.http label (rw e (omega arith))) (
      rw
        (
          to_int32-natural (length r.rows) modest.rows_few,
          itoa_s-done (length r.rows) modest.rows_few,
          e,
        )
        (rw (
          append_payload-done (record s.http { payloadbuf = label }) (decimal (length r.rows))
            (omega (arith, h, length-decimal 6 (length r.rows) modest.rows_few)))))

-- The reply to a request for the sum is "AuthSum=" and the number of rows of the vendor's table in
-- decimal, where that table has at most 20 columns and fewer than ten million rows.
pub mysql_auth_sum-counts :
    (m : Mysql) (s : MySqlHttpData m.Connection) (r : ResultSet) (c : m.Connection)
    → IsModest r
    → HasLimits s.http
    → s.tablename ≡ codes "VendorID_" ++ s.http.vendorid
    → s.http.payloadbuf ≡ []
    → run_query m s.mysql (sum_query s.http.vendorid) ≡ (c, some r)
    → mysql_auth_sum m s
      ≡ done (
        record s {
          mysql = c;
          http = record s.http { payloadbuf = codes "AuthSum=" ++ decimal (length r.rows) };
        },
        true,
      )
unfolding after_sum
mysql_auth_sum-counts m s r c modest l t e q = rw (mysql_auth_sum-asks m s l t) (
    rw q (
      rw (show_query_details-done r modest).1
        (append_count-done m (record s { mysql = c }) r modest (codes "AuthSum=") e (omega arith))))
