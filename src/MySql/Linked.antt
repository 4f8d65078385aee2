-- ===== src/MySql/Linked.antt =====
-- What `ConnectDatabase` leaves, whatever the database answers.
use amsserver.MySql.Table.{show_query_details}
use amsserver.Base.{
  refl, ◌≡◌, ◌∷◌, [], none, some, true, false, inl, inr, done, Option, ◌⊎◌, Bool, Outcome, Bytes,
  Returns, codes, Bool-cases, ◌++◌, ◌>>=◌, ◌==◌, length, arith,
}
use amsserver.HttpData.Limits.{HasLimits}
use amsserver.MySql.Counts.{IsModest, show_query_details-done}
use amsserver.MySql.Queries.{find_database-asks, use_database-done, find_table-asks}
use amsserver.MySql.Handler.{
  MySqlHttpData, connect_database, after_database, use_database, find_table, after_table, run_query,
}
use amsserver.MySql.Client.{Mysql, ResultSet}
use amsserver.HttpData.State.{k_error_flag}

-- A result, if there is one, can be shown and counted.
abbrev pub IsModestIfAny : Option ResultSet → Type 0
IsModestIfAny none = Unit {0}
IsModestIfAny (some r) = IsModest r

abbrev pub IsModestBase : Mysql → Type 0
IsModestBase m = (c : m.Connection) → IsModestIfAny (m.mysql_store_result c).1

-- What connecting leaves: the limits hold, and the name of the table is there, or an error is due.
pub record Linked {C : Type 0} (s : MySqlHttpData C) : Type 0 where
  pub limits : HasLimits s.http
  pub no_payload : s.http.payloadbuf ≡ []
  pub table_named :
      (s.http.sendflag ≡ k_error_flag) ⊎ (s.tablename ≡ codes "VendorID_" ++ s.http.vendorid)

abbrev pub IfLinked : {C : Type 0} → MySqlHttpData C × Bool → Type 0
IfLinked (s, r) = (s.http.payloadbuf ≡ []) × (r ≡ true → Linked s)

refused-IfLinked : {C : Type 0} (s : MySqlHttpData C) → s.http.payloadbuf ≡ [] → IfLinked (s, false)
refused-IfLinked s p = (p, λ e. cc)

pub Returns-shown :
    {A : Type 0} (r : ResultSet) (next : Outcome A) (P : A → Type 0)
    → IsModest r
    → Returns next P
    → Returns (show_query_details 1 r >>= λ _. next) P
Returns-shown r next P k h = rw (show_query_details-done r k).1 h

module _ (m : Mysql) (modest : IsModestBase m) where
  pub run_query-IsModest : (c : m.Connection) (q : Bytes) → IsModestIfAny (run_query m c q).1
  unfolding run_query
  run_query-IsModest c q = elim (Bool-cases ((m.mysql_real_query c q).1 == 0)) [
    | inl e ↦ rw e (modest (m.mysql_real_query c q).0)
    | inr e ↦ rw e tt
  ]

  after_table-Linked :
      (s : MySqlHttpData m.Connection) (o : Option ResultSet)
      → HasLimits s.http
      → s.http.payloadbuf ≡ []
      → s.tablename ≡ codes "VendorID_" ++ s.http.vendorid
      → IsModestIfAny o
      → Returns (after_table m s o) IfLinked
  unfolding after_table
  after_table-Linked s none l p t k = refused-IfLinked s p
  after_table-Linked s (some r) l p t k = elim (Bool-cases (length r.rows == 0)) [
    | inl e ↦
        rw e (p, λ _. record { limits = ground arith; no_payload = p; table_named = inl refl })
    | inr e ↦ rw e (
        Returns-shown r (done (s, true)) IfLinked k
          (p, λ _. record { limits = l; no_payload = p; table_named = inr t }))
  ]

  find_table-Linked :
      (s : MySqlHttpData m.Connection)
      → HasLimits s.http
      → s.http.payloadbuf ≡ []
      → s.tablename ≡ []
      → Returns (find_table m s) IfLinked
  find_table-Linked s l p t =
      rw (find_table-asks m s l t)
        (after_table-Linked _ (run_query m s.mysql _).1 l p refl (run_query-IsModest s.mysql _))

  use_database-Linked :
      (s : MySqlHttpData m.Connection)
      → HasLimits s.http
      → s.http.payloadbuf ≡ []
      → s.tablename ≡ []
      → Returns
          (use_database m s (b'"' ∷ ((codes "ProjectID_" ++ s.http.projectid) ++ b'"' ∷ [])))
          IfLinked
  use_database-Linked s l p t =
      rw (use_database-done m s l)
        (elim (Bool-cases ((m.mysql_select_db s.mysql s.databasename).1 == 0)) [
          | inl e ↦ rw e (find_table-Linked _ l p t)
          | inr e ↦ rw e (refused-IfLinked _ p)
        ])

  after_database-Linked :
      (s : MySqlHttpData m.Connection) (o : Option ResultSet)
      → HasLimits s.http
      → s.http.payloadbuf ≡ []
      → s.tablename ≡ []
      → IsModestIfAny o
      → Returns
          (after_database m s (b'"' ∷ ((codes "ProjectID_" ++ s.http.projectid) ++ b'"' ∷ [])) o)
          IfLinked
  unfolding after_database
  after_database-Linked s none l p t k = refused-IfLinked s p
  after_database-Linked s (some r) l p t k = elim (Bool-cases (length r.rows == 0)) [
    | inl e ↦
        rw e (p, λ _. record { limits = ground arith; no_payload = p; table_named = inl refl })
    | inr e ↦ rw e (Returns-shown r _ IfLinked k (use_database-Linked s l p t))
  ]

  pub connect_database-Linked :
      (s : MySqlHttpData m.Connection)
      → HasLimits s.http
      → s.http.payloadbuf ≡ []
      → s.databasename ≡ []
      → s.tablename ≡ []
      → Returns (connect_database m s) IfLinked
  unfolding connect_database
  connect_database-Linked s l p d t = elim (Bool-cases (m.mysql_real_connect s.mysql).1) [
    | inl e ↦ rw e (
        rw (find_database-asks m (record s { mysql = (m.mysql_real_connect s.mysql).0 }) l d) (
          after_database-Linked _ (run_query m (m.mysql_real_connect s.mysql).0 _).1 l p t
            (run_query-IsModest (m.mysql_real_connect s.mysql).0 _)))
    | inr e ↦ rw e (refused-IfLinked _ p)
  ]
