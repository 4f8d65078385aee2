-- ===== src/MySql/Unknown.antt =====
-- A database that knows no project.
use amsserver.HttpData.Parse.{parse_recv_buf}
use amsserver.HttpData.Protocol.{IsFresh}
use amsserver.HttpData.Build.{build_payload, dispatch_flag, on_base, build_error_payload}
use amsserver.HttpData.Limits.{HasLimits, Parsed, parse_recv_buf-Parsed}
use amsserver.MySql.Handler.{
  MySqlHttpData, connect_database, after_database, run_query, mysql_handle_http_data, mysql_methods,
}
use amsserver.MySql.Client.{Mysql, ResultSet}
use amsserver.HttpData.State.{k_project_id_is_wrong, refuse, HttpData}
use amsserver.Base.{[], some, true, ◌≡◌, Bytes, Returns, refl, ℕ, codes, Returns-bind, ◌∙◌}
use amsserver.MySql.Queries.{project_query, find_database-asks}

-- After the connection is made, the query for any project is answered with no row.
pub record KnowsNone (m : Mysql) (c : m.Connection) : Type 0 where
  pub connected : (m.mysql_real_connect c).1 ≡ true
  pub none_found :
      (projectid : Bytes)
      → (c' : m.Connection) × (r : ResultSet) × (run_query m
            (m.mysql_real_connect c).0
            (project_query projectid)
          ≡ (c', some r))
        × (r.rows ≡ [])

module _ (m : Mysql) (s : MySqlHttpData m.Connection) (known : KnowsNone m s.mysql) where
  connect_database-unknown :
      HasLimits s.http
      → s.databasename ≡ []
      → Returns
          (connect_database m s)
          (λ (t, r). (r ≡ true) × (t.http ≡ refuse s.http k_project_id_is_wrong))
  unfolding connect_database after_database
  connect_database-unknown l e =
      let (c, r, q, z) = known.none_found s.http.projectid in
      rw known.connected (
        rw (find_database-asks m (record s { mysql = (m.mysql_real_connect s.mysql).0 }) l e)
          (rw q (rw z (refl, refl))))

  build_payload-refused :
      (t : MySqlHttpData m.Connection) (d : HttpData)
      → t.http ≡ refuse d k_project_id_is_wrong
      → d.payloadbuf ≡ []
      → Returns
          (build_payload (mysql_methods m) t)
          (λ (u, r). (r ≡ true) × (u.http.payloadbuf ≡ codes "ErrorCode=ProjectIDIsWrong"))
  unfolding build_payload dispatch_flag on_base build_error_payload
  build_payload-refused t d e p = rw e (rw p (refl, refl))

-- With a database that knows no project, every request of fewer than 980 bytes is answered with
-- "ErrorCode=ProjectIDIsWrong", also where the parser found another error or a request that the
-- base class does not answer.
pub mysql_handle-unknown :
    (m : Mysql) (sizes : Bytes → ℕ) (s : MySqlHttpData m.Connection)
    → KnowsNone m s.mysql
    → IsFresh s.http
    → HasLimits s.http
    → s.databasename ≡ []
    → Returns
        (mysql_handle_http_data m sizes s)
        (λ (u, r). (r ≡ true) × (u.http.payloadbuf ≡ codes "ErrorCode=ProjectIDIsWrong"))
unfolding mysql_handle_http_data
mysql_handle-unknown m sizes s known fresh l e =
    Returns-bind (parse_recv_buf sizes s.http) _ (Parsed s.http) _
      (parse_recv_buf-Parsed sizes s.http fresh.small l)
      λ d p.
        Returns-bind (connect_database m (record s { http = d })) _
          (λ (t, r). (r ≡ true) × (t.http ≡ refuse d k_project_id_is_wrong)) _
          (connect_database-unknown m (record s { http = d }) known p.limits e)
          (λ (t, r) (q, f).
            rw q (build_payload-refused m s known t d f (p.payload_kept ∙ fresh.no_payload)))
