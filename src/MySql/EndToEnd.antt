-- ===== src/MySql/EndToEnd.antt =====
-- From the text of a request to the number of rows in the database.
use amsserver.Crt.Number.{decimal}
use amsserver.MySql.Queries.{sum_query}
use amsserver.MySql.Counts.{IsModest, mysql_auth_sum-counts}
use amsserver.HttpData.Build.{build_payload, dispatch_flag}
use amsserver.MySql.Connected.{KnowsVendor, connect_database-Connected}
use amsserver.HttpData.RoundTrip.{IsWritable, request, parse_recv_buf-request}
use amsserver.HttpData.Auth.{accept}
use amsserver.HttpData.Limits.{HasLimits}
use amsserver.MySql.Handler.{MySqlHttpData, mysql_handle_http_data, mysql_methods, run_query}
use amsserver.HttpData.Items.{Items, IsAccepted}
use amsserver.HttpData.State.{HttpData}
use amsserver.Base.{refl, ◌≡◌, [], some, true, Bytes, ℕ, ◌<◌, arith, codes, length, ◌++◌, Returns}
use amsserver.MySql.Client.{Mysql, ResultSet}

-- The handler for a new request.
abbrev pub incoming : {C : Type 0} → C → HttpData → MySqlHttpData C
incoming c d = record { http = d; mysql = c; databasename = []; tablename = [] }

accept-HasLimits : (i : Items) (d : HttpData) → IsAccepted i → HasLimits (accept i d)
accept-HasLimits i d v = record {
  project_fits = v.project_fits;
  vendor_fits = v.vendor_fits;
  stb_fits = v.stb_fits;
  chip_fits = v.chip_fits;
  mac_fits = ground (arith, v.mac_whole);
}

module _ (m : Mysql) (sizes : Bytes → ℕ) (i : Items) (d : HttpData) (c ready : m.Connection)
    (big : (call : Bytes) → 32 < sizes call) (v : IsAccepted i) (w : IsWritable i)
    (asked : d.recvdatabuf ≡ request i) (fresh : d.payloadbuf ≡ [])
    (k : KnowsVendor m c ready i.project i.vendor) where
  handle-accepted :
      mysql_handle_http_data m sizes (incoming c d)
      ≡ build_payload (mysql_methods m) (record (incoming ready (accept i d)) {
        databasename = codes "ProjectID_" ++ i.project;
        tablename = codes "VendorID_" ++ i.vendor;
      })
  unfolding mysql_handle_http_data
  handle-accepted = rw (parse_recv_buf-request sizes i d big v w asked) (
      rw
        (connect_database-Connected m (incoming c (accept i d)) ready (accept-HasLimits i d v) refl
          refl k)
        refl)

  -- A new request with no STBID, ChipID and MAC is answered with the number of rows of the vendor's table,
  -- with a database that answers the query for them and knows
  -- the project and the vendor. The request is written from accepted items, whose values have no '=' and no
  -- '&', and sscanf_s reads sizes of more than 32 bytes. The result of the query has at most 20 columns and
  -- fewer than ten million rows.
  pub mysql_handle-sum :
      (r : ResultSet) (last : m.Connection)
      → length i.stb ≡ 0
      → length i.chip ≡ 0
      → length i.mac ≡ 0
      → IsModest r
      → run_query m ready (sum_query i.vendor) ≡ (last, some r)
      → Returns
          (mysql_handle_http_data m sizes (incoming c d))
          (λ (u, b). (b ≡ true) × (u.http.payloadbuf ≡ codes "AuthSum=" ++ decimal (length r.rows)))
  unfolding build_payload dispatch_flag
  mysql_handle-sum r last hs hc hm modest q = rw handle-accepted (
      ground (
        arith,
        mysql_auth_sum-counts m
            (record (incoming ready (accept i d)) {
              databasename = codes "ProjectID_" ++ i.project;
              tablename = codes "VendorID_" ++ i.vendor;
            })
            r last modest (accept-HasLimits i d v) refl fresh q,
      ))
