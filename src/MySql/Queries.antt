-- ===== src/MySql/Queries.antt =====
-- The calls of the run-time library in `MySqlHttpData` do not fail on the names that the parser
-- leaves.
use amsserver.HttpData.Limits.{HasLimits}
use amsserver.MySql.Client.{Mysql}
use amsserver.Crt.Bounds.{sprintf_quoted-done, strcat_s-done}
use amsserver.Crt.Text.{sprintf_quoted}
use amsserver.Base.{
  ◌∷◌, [], done, Bytes, length, ℕ, ◌+◌, ◌<◌, ◌≡◌, ◌>>=◌, ◌++◌, arith, length-append, codes,
  if◌then◌else◌, false, ◌==◌, append_assoc,
}
use amsserver.MySql.Handler.{
  append_query, append_name, MySqlHttpData, find_database, run_query, after_database, use_database,
  find_table, after_table, mysql_auth_sum, after_sum, mysql_auth_by_stbid, after_state,
}

quoted_query-done :
    (select name : Bytes) (size : ℕ)
    → length name + 2 < size
    → length select + length name + 2 < 256
    → (sprintf_quoted size name >>= append_query select)
      ≡ done (select ++ b'"' ∷ (name ++ b'"' ∷ []))
unfolding append_query
quoted_query-done select name size h k = rw (sprintf_quoted-done size name h) (
    strcat_s-done 256 256 select (b'"' ∷ (name ++ b'"' ∷ []))
      (omega (arith, length-append name (b'"' ∷ [])))
      (omega (arith, length-append name (b'"' ∷ []))))

append_name-done :
    (header name : Bytes)
    → length header + length name < 32
    → append_name header name ≡ done (header ++ name)
unfolding append_name
append_name-done header name h = strcat_s-done 32 256 header name (omega arith) h

append_query-done :
    (query more : Bytes)
    → length query + length more < 256
    → append_query query more ≡ done (query ++ more)
unfolding append_query
append_query-done query more h = strcat_s-done 256 256 query more h h

-- The queries that the handler sends.
abbrev pub project_query : Bytes → Bytes
project_query projectid =
    codes "SELECT schema_name FROM SCHEMATA WHERE schema_name=\"ProjectID_"
    ++ (projectid ++ codes "\"")

abbrev pub vendor_query : Bytes → Bytes
vendor_query vendorid =
    codes "SELECT table_name FROM information_schema.TABLES WHERE table_name=\"VendorID_"
    ++ (vendorid ++ codes "\"")

abbrev pub sum_query : Bytes → Bytes
sum_query vendorid = codes "SELECT * FROM VendorID_" ++ vendorid

abbrev pub stbid_query : Bytes → Bytes → Bytes
stbid_query vendorid stbid =
    codes "SELECT * FROM VendorID_"
    ++ (vendorid ++ (codes " WHERE stbid=\"" ++ (stbid ++ codes "\"")))

module _ (m : Mysql) (s : MySqlHttpData m.Connection) (l : HasLimits s.http) where
  pub find_database-asks :
      s.databasename ≡ []
      → find_database m s ≡ (
          let (c, answer) = run_query m s.mysql (project_query s.http.projectid) in
          after_database m
            (record s { mysql = c; databasename = codes "ProjectID_" ++ s.http.projectid })
            (b'"' ∷ ((codes "ProjectID_" ++ s.http.projectid) ++ b'"' ∷ []))
            answer)
  unfolding find_database
  find_database-asks e = rw e (
      rw (
        append_query-done [] (codes "SELECT schema_name FROM SCHEMATA WHERE schema_name=")
            (omega arith),
        append_name-done [] (codes "ProjectID_") (omega arith),
        append_name-done (codes "ProjectID_") s.http.projectid (omega (arith, l.project_fits)),
        sprintf_quoted-done 35 (codes "ProjectID_" ++ s.http.projectid)
            (omega (arith, l.project_fits)),
        append_query-done (codes "SELECT schema_name FROM SCHEMATA WHERE schema_name=")
            (b'"' ∷ ((codes "ProjectID_" ++ s.http.projectid) ++ b'"' ∷ []))
            (omega (arith, l.project_fits, length-append s.http.projectid (b'"' ∷ []))),
      ))

  pub use_database-done :
      use_database m s (b'"' ∷ ((codes "ProjectID_" ++ s.http.projectid) ++ b'"' ∷ [])) ≡ (
        let (c, sqlerror) = m.mysql_select_db s.mysql s.databasename in
        if sqlerror == 0
        then find_table m (record s { mysql = c })
        else done (record s { mysql = c }, false))
  unfolding use_database
  use_database-done = rw (
    append_query-done [] (codes "USE ") (omega arith),
    append_query-done (codes "USE ")
        (b'"' ∷ ((codes "ProjectID_" ++ s.http.projectid) ++ b'"' ∷ []))
        (omega (arith, l.project_fits, length-append s.http.projectid (b'"' ∷ []))),
  )

  pub find_table-asks :
      s.tablename ≡ []
      → find_table m s ≡ (
          let (c, answer) = run_query m s.mysql (vendor_query s.http.vendorid) in
          after_table m
            (record s { mysql = c; tablename = codes "VendorID_" ++ s.http.vendorid })
            answer)
  unfolding find_table
  find_table-asks e = rw e (
      rw (
        append_query-done []
            (codes "SELECT table_name FROM information_schema.TABLES WHERE table_name=")
            (omega arith),
        append_name-done [] (codes "VendorID_") (omega arith),
        append_name-done (codes "VendorID_") s.http.vendorid (omega (arith, l.vendor_fits)),
        sprintf_quoted-done 35 (codes "VendorID_" ++ s.http.vendorid)
            (omega (arith, l.vendor_fits)),
        append_query-done
            (codes "SELECT table_name FROM information_schema.TABLES WHERE table_name=")
            (b'"' ∷ ((codes "VendorID_" ++ s.http.vendorid) ++ b'"' ∷ []))
            (omega (arith, l.vendor_fits, length-append s.http.vendorid (b'"' ∷ []))),
      ))

  pub mysql_auth_sum-asks :
      s.tablename ≡ codes "VendorID_" ++ s.http.vendorid
      → mysql_auth_sum m s ≡ (
          let (c, answer) = run_query m s.mysql (sum_query s.http.vendorid) in
          after_sum m (record s { mysql = c }) answer)
  unfolding mysql_auth_sum
  mysql_auth_sum-asks e = rw e (
      rw (
        append_query-done [] (codes "SELECT * FROM ") (omega arith),
        append_query-done (codes "SELECT * FROM ") (codes "VendorID_" ++ s.http.vendorid)
            (omega (arith, l.vendor_fits)),
      ))

  pub mysql_auth_by_stbid-asks :
      s.tablename ≡ codes "VendorID_" ++ s.http.vendorid
      → mysql_auth_by_stbid m s ≡ (
          let (c, answer) = run_query m s.mysql (stbid_query s.http.vendorid s.http.stbid) in
          after_state m (record s { mysql = c }) answer)
  unfolding mysql_auth_by_stbid
  mysql_auth_by_stbid-asks e = rw e (
      rw (
        append_query-done [] (codes "SELECT * FROM ") (omega arith),
        append_query-done (codes "SELECT * FROM ") (codes "VendorID_" ++ s.http.vendorid)
            (omega (arith, l.vendor_fits)),
        append_query-done (codes "SELECT * FROM VendorID_" ++ s.http.vendorid)
            (codes " WHERE stbid=")
            (omega (
              arith,
              l.vendor_fits,
              length-append (codes "SELECT * FROM VendorID_") s.http.vendorid,
            )),
        sprintf_quoted-done 35 s.http.stbid (omega (arith, l.stb_fits)),
        append_query-done
            ((codes "SELECT * FROM VendorID_" ++ s.http.vendorid) ++ codes " WHERE stbid=")
            (b'"' ∷ (s.http.stbid ++ b'"' ∷ []))
            (omega (
              arith,
              l.vendor_fits,
              l.stb_fits,
              length-append s.http.stbid (b'"' ∷ []),
              length-append (codes "SELECT * FROM VendorID_" ++ s.http.vendorid)
                  (codes " WHERE stbid="),
              length-append (codes "SELECT * FROM VendorID_") s.http.vendorid,
            )),
        append_assoc s.http.vendorid (codes " WHERE stbid=") (b'"' ∷ (s.http.stbid ++ b'"' ∷ [])),
      ))
