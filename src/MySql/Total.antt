-- ===== src/MySql/Total.antt =====
-- The handler ends without a fault, whatever the database answers.
use amsserver.MySql.Fits.{
  HasAtMost, FitsPayload, build_error_payload-HasAtMost, inherited-Fits,
  build_query_activate_state-Fits, after_sum-Fits, after_state-Fits,
}
use amsserver.Base.{
  [], done, ℕ, Bool, Bytes, ◌≡◌, length, Returns, ◌≤◌, arith, refl, if◌then◌else◌, true, false,
  Outcome, ◌==◌, Returns-bind, Returns-mono, codes, inl, inr, ◌++◌, Returns-if, ◌∙◌,
}
use amsserver.HttpData.Parse.{parse_recv_buf}
use amsserver.HttpData.Protocol.{IsFresh}
use amsserver.HttpData.Limits.{HasLimits, Parsed, parse_recv_buf-Parsed}
use amsserver.HttpData.Build.{
  build_payload, dispatch_flag, on_base, build_error_payload, append_payload,
  build_query_auth_state, base_auth_by_chip_id, base_auth_by_mac, base_activate_sum,
}
use amsserver.MySql.Queries.{sum_query, stbid_query, mysql_auth_sum-asks, mysql_auth_by_stbid-asks}
use amsserver.MySql.Linked.{
  IsModestBase, run_query-IsModest, Linked, IfLinked, connect_database-Linked,
}
use amsserver.MySql.Handler.{
  MySqlHttpData, connect_database, mysql_auth_sum, mysql_auth_by_stbid, inherited, mysql_methods,
  mysql_handle_http_data, run_query,
}
use amsserver.MySql.Client.{Mysql}
use amsserver.HttpData.State.{
  HttpData, k_error_flag, k_activate_succeed, k_activate_failed, k_query_activate_sum,
  k_query_auth_sum, k_query_activate_state, k_null_flag, k_query_auth_state, SendFlag,
}

module _ (m : Mysql) (modest : IsModestBase m) where
  mysql_auth_sum-Fits :
      (s : MySqlHttpData m.Connection)
      → HasLimits s.http
      → s.http.payloadbuf ≡ []
      → s.tablename ≡ codes "VendorID_" ++ s.http.vendorid
      → Returns (mysql_auth_sum m s) FitsPayload
  mysql_auth_sum-Fits s l e t = rw (mysql_auth_sum-asks m s l t) (
      after_sum-Fits m _ e (run_query m s.mysql (sum_query s.http.vendorid)).1
        (run_query-IsModest m modest s.mysql (sum_query s.http.vendorid)))

  mysql_auth_by_stbid-Fits :
      (s : MySqlHttpData m.Connection)
      → HasLimits s.http
      → s.http.payloadbuf ≡ []
      → s.tablename ≡ codes "VendorID_" ++ s.http.vendorid
      → Returns (mysql_auth_by_stbid m s) FitsPayload
  mysql_auth_by_stbid-Fits s l e t = rw (mysql_auth_by_stbid-asks m s l t) (
      after_state-Fits m _ e (run_query m s.mysql (stbid_query s.http.vendorid s.http.stbid)).1
        (run_query-IsModest m modest s.mysql (stbid_query s.http.vendorid s.http.stbid)))

  build_query_auth_state-Fits :
      (s : MySqlHttpData m.Connection)
      → HasLimits s.http
      → s.http.payloadbuf ≡ []
      → s.tablename ≡ codes "VendorID_" ++ s.http.vendorid
      → Returns (build_query_auth_state (mysql_methods m) s) FitsPayload
  unfolding build_query_auth_state base_auth_by_chip_id base_auth_by_mac
  build_query_auth_state-Fits s l e t =
      Returns-if (length s.http.stbid == 0) _ _ FitsPayload
        (Returns-if (length s.http.chipid == 0) _ _ FitsPayload
          (Returns-if (length s.http.macaddr == 0) (done (s, false)) _ FitsPayload
            (rw e (omega arith))
            (of_base base_auth_by_mac (codes "AuthState=Mac") refl (omega arith)))
          (of_base base_auth_by_chip_id (codes "AuthState=ChipId") refl (omega arith)))
        (mysql_auth_by_stbid-Fits s l e t)
    where
      of_base :
          (f : HttpData → Outcome (HttpData × Bool)) (text : Bytes)
          → f ≡ (λ d. append_payload d text)
          → length text ≤ 100
          → Returns (inherited m f s) FitsPayload
      of_base f text q h =
          Returns-mono _ (λ (t, r). length t.http.payloadbuf ≤ 100) FitsPayload
            (inherited-Fits m f text s 0 100 q (rw e (omega arith)) (omega (arith, h))
              (omega arith))
            (λ (t, r) i. omega (arith, i))

  dispatch_flag-Fits :
      (f : SendFlag) (s : MySqlHttpData m.Connection)
      → s.http.sendflag ≡ f
      → Linked s
      → Returns (dispatch_flag (mysql_methods m) f s) FitsPayload
  unfolding dispatch_flag on_base base_activate_sum
  dispatch_flag-Fits k_error_flag s e l =
      Returns-bind (build_error_payload s.http) _ (HasAtMost 100) FitsPayload
        (build_error_payload-HasAtMost s.http s.http.errorcode refl l.no_payload)
        (λ (d, r) p. omega (arith, p))
  dispatch_flag-Fits k_query_auth_state s e l = elim l.table_named [
    | inl q ↦ cc
    | inr q ↦ build_query_auth_state-Fits s l.limits l.no_payload q
  ]
  dispatch_flag-Fits k_query_auth_sum s e l = elim l.table_named [
    | inl q ↦ cc
    | inr q ↦ mysql_auth_sum-Fits s l.limits l.no_payload q
  ]
  dispatch_flag-Fits k_query_activate_state s e l = build_query_activate_state-Fits m s l.no_payload
  dispatch_flag-Fits k_query_activate_sum s e l =
      Returns-mono _ (λ (t, r). length t.http.payloadbuf ≤ 100) FitsPayload
        (inherited-Fits m base_activate_sum (codes "ActivateSum=0") s 0 100 refl
          (rw l.no_payload (omega arith)) (omega arith) (omega arith))
        (λ (t, r) i. omega (arith, i))
  dispatch_flag-Fits k_activate_succeed s e l = rw l.no_payload (omega arith)
  dispatch_flag-Fits k_activate_failed s e l = rw l.no_payload (omega arith)
  dispatch_flag-Fits k_null_flag s e l = rw l.no_payload (omega arith)

  build_if-Fits :
      (s : MySqlHttpData m.Connection) (r : Bool)
      → IfLinked (s, r)
      → Returns (if r then build_payload (mysql_methods m) s else done (s, false)) FitsPayload
  unfolding build_payload
  build_if-Fits s true (p, l) = dispatch_flag-Fits s.http.sendflag s refl (l refl)
  build_if-Fits s false (p, l) = rw p (omega arith)

  -- With any database each of whose results has at most 20 columns and fewer than ten million rows, the
  -- handler of a new request of fewer than 980 bytes ends without a fault, whichever calls of the
  -- client library fail, and the payload and its NUL fit their buffer.
  pub mysql_handle-Fits :
      (sizes : Bytes → ℕ) (s : MySqlHttpData m.Connection)
      → IsFresh s.http
      → HasLimits s.http
      → s.databasename ≡ []
      → s.tablename ≡ []
      → Returns (mysql_handle_http_data m sizes s) FitsPayload
  unfolding mysql_handle_http_data
  mysql_handle-Fits sizes s fresh l a b =
      Returns-bind (parse_recv_buf sizes s.http) _ (Parsed s.http) FitsPayload
        (parse_recv_buf-Parsed sizes s.http fresh.small l)
        λ d p.
          Returns-bind (connect_database m (record s { http = d })) _ IfLinked FitsPayload
            (connect_database-Linked m modest (record s { http = d }) p.limits
              (p.payload_kept ∙ fresh.no_payload) a b)
            (λ (t, r) i. build_if-Fits t r i)
