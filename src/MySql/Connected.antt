-- ===== src/MySql/Connected.antt =====
-- A database that knows the project and the vendor: the connection, and the replies that count
-- rows.
use amsserver.MySql.Counts.{IsModest, show_query_details-done}
use amsserver.MySql.Queries.{
  project_query, find_database-asks, find_table-asks, vendor_query, use_database-done,
}
use amsserver.HttpData.Limits.{HasLimits}
use amsserver.MySql.Handler.{
  MySqlHttpData, run_query, after_table, connect_database, after_database, find_table,
}
use amsserver.Base.{[], some, true, done, Bytes, ◌≡◌, codes, length, ◌++◌, ◌≢◌, arith, refl}
use amsserver.MySql.Client.{Mysql, ResultSet}

-- The project's database and the vendor's table are found, each by a result that can be shown,
-- after which the connection is `ready`.
pub record KnowsVendor (m : Mysql) (c ready : m.Connection) (projectid vendorid : Bytes)
    : Type 0 where
  pub connected : (m.mysql_real_connect c).1 ≡ true
  pub databases : ResultSet
  pub found : m.Connection
  pub project_found :
      run_query m (m.mysql_real_connect c).0 (project_query projectid) ≡ (found, some databases)
  pub databases_some : length databases.rows ≢ 0
  pub databases_modest : IsModest databases
  pub selected : m.Connection
  pub database_selected : m.mysql_select_db found (codes "ProjectID_" ++ projectid) ≡ (selected, 0)
  pub tables : ResultSet
  pub vendor_found : run_query m selected (vendor_query vendorid) ≡ (ready, some tables)
  pub tables_some : length tables.rows ≢ 0
  pub tables_modest : IsModest tables

module _ (m : Mysql) (s : MySqlHttpData m.Connection) (ready : m.Connection) (l : HasLimits s.http)
    (d : s.databasename ≡ []) (t : s.tablename ≡ [])
    (k : KnowsVendor m s.mysql ready s.http.projectid s.http.vendorid) where
  find_table-Connected :
      (u : MySqlHttpData m.Connection)
      → u ≡ record s { mysql = k.selected; databasename = codes "ProjectID_" ++ s.http.projectid }
      → find_table m u
        ≡ done (
          record s {
            mysql = ready;
            databasename = codes "ProjectID_" ++ s.http.projectid;
            tablename = codes "VendorID_" ++ s.http.vendorid;
          },
          true,
        )
  unfolding after_table
  find_table-Connected u e = rw e (
      rw
        (find_table-asks m
          (record s { mysql = k.selected; databasename = codes "ProjectID_" ++ s.http.projectid }) l
          t)
        (rw k.vendor_found (
          rw (show_query_details-done k.tables k.tables_modest).1 (ground (arith, k.tables_some)))))

  -- The connection to a database that knows the project and the vendor succeeds. It changes nothing
  -- of the request, selects the project's database, and leaves the names of the two in the object.
  pub connect_database-Connected :
      connect_database m s
      ≡ done (
        record s {
          mysql = ready;
          databasename = codes "ProjectID_" ++ s.http.projectid;
          tablename = codes "VendorID_" ++ s.http.vendorid;
        },
        true,
      )
  unfolding connect_database after_database
  connect_database-Connected = rw k.connected (
      rw (find_database-asks m (record s { mysql = (m.mysql_real_connect s.mysql).0 }) l d) (
        rw k.project_found (
          rw (show_query_details-done k.databases k.databases_modest).1 (
            ground (
              arith,
              k.databases_some,
              k.database_selected,
              use_database-done m
                  (record s {
                    mysql = k.found;
                    databasename = codes "ProjectID_" ++ s.http.projectid;
                  })
                  l,
              find_table-Connected
                  (record s {
                    mysql = k.selected;
                    databasename = codes "ProjectID_" ++ s.http.projectid;
                  })
                  refl,
            )))))
