-- ===== src/MySql/Fits.antt =====
-- The payloads of `MySqlHttpData` fit their buffer.
use amsserver.Base.{
  [], done, ℕ, Bool, Bytes, ◌≡◌, length, Returns, ◌≤◌, ◌<◌, ◌+◌, arith, length-append, refl,
  if◌then◌else◌, true, false, Outcome, ◌==◌, Returns-bind, codes, none, some, inl, inr, Option,
  Bool-cases,
}
use amsserver.HttpData.Build.{
  build_error_payload, append_payload, build_query_activate_state, and_then, base_activate_by_stbid,
  base_activate_by_chip_id, base_activate_by_mac,
}
use amsserver.MySql.Counts.{IsModest, append_payload-done, append_count-done}
use amsserver.MySql.Linked.{IsModestIfAny, Returns-shown}
use amsserver.MySql.Handler.{
  MySqlHttpData, after_sum, after_state, inherited, is_below_one, mysql_methods, append_count,
}
use amsserver.MySql.Client.{Mysql, ResultSet}
use amsserver.Crt.Bounds.{length-decimal}
use amsserver.Crt.Number.{decimal, to_int32}
use amsserver.HttpData.State.{HttpData, Errorcode, k_null_error}

-- The payload has at most so many bytes.
abbrev pub HasAtMost : ℕ → HttpData × Bool → Type 0
HasAtMost n (d, r) = length d.payloadbuf ≤ n

abbrev pub FitsPayload : {C : Type 0} → MySqlHttpData C × Bool → Type 0
FitsPayload (s, r) = length s.http.payloadbuf < 1024

append_payload-HasAtMost :
    (d : HttpData) (text : Bytes)
    → length d.payloadbuf + length text < 1024
    → Returns (append_payload d text) (HasAtMost (length d.payloadbuf + length text))
append_payload-HasAtMost d text h =
    rw (append_payload-done d text h) (omega (arith, length-append d.payloadbuf text))

pub build_error_payload-HasAtMost :
    (d : HttpData) (c : Errorcode)
    → d.errorcode ≡ c
    → d.payloadbuf ≡ []
    → Returns (build_error_payload d) (HasAtMost 100)
unfolding build_error_payload
build_error_payload-HasAtMost d k_null_error e p = rw (e, p) (omega arith)
build_error_payload-HasAtMost d _ e p = rw (e, p) (omega arith)

module _ (m : Mysql) where
  -- A method that the class inherits, on a payload of at most `n` bytes.
  pub inherited-Fits :
      (f : HttpData → Outcome (HttpData × Bool)) (text : Bytes) (s : MySqlHttpData m.Connection)
      (n k : ℕ)
      → f ≡ (λ d. append_payload d text)
      → length s.http.payloadbuf ≤ n
      → n + length text ≤ k
      → k < 1024
      → Returns (inherited m f s) (λ (t, r). length t.http.payloadbuf ≤ k)
  inherited-Fits f text s n k e h a b = rw e (
      Returns-bind (append_payload s.http text) _
        (HasAtMost (length s.http.payloadbuf + length text)) _
        (append_payload-HasAtMost s.http text (omega arith)) (λ (d, r) p. omega arith))

  and_then-Fits :
      (absent : Bool)
      (build rest : MySqlHttpData m.Connection → Outcome (MySqlHttpData m.Connection × Bool))
      (s : MySqlHttpData m.Connection) (n k : ℕ)
      → n ≤ k
      → k < 1024
      → length s.http.payloadbuf ≤ n
      → Returns (build s) (λ (t, r). length t.http.payloadbuf ≤ k)
      → ((t : MySqlHttpData m.Connection)
          → length t.http.payloadbuf ≤ k
          → Returns (rest t) FitsPayload)
      → Returns (and_then (mysql_methods m) absent build rest s) FitsPayload
  unfolding and_then
  and_then-Fits true build rest s n k a b h p q = q s (omega arith)
  and_then-Fits false build rest s n k a b h p q =
      Returns-bind (build s) _ (λ (t, r). length t.http.payloadbuf ≤ k) _ p
        (λ (t, r) i. rest_if t r i)
    where
      rest_if :
          (t : MySqlHttpData m.Connection) (r : Bool)
          → length t.http.payloadbuf ≤ k
          → Returns (if r then rest t else done (t, false)) FitsPayload
      rest_if t true i = q t i
      rest_if t false i = omega arith

  pub build_query_activate_state-Fits :
      (s : MySqlHttpData m.Connection)
      → s.http.payloadbuf ≡ []
      → Returns (build_query_activate_state (mysql_methods m) s) FitsPayload
  unfolding build_query_activate_state base_activate_by_stbid base_activate_by_chip_id
      base_activate_by_mac
  build_query_activate_state-Fits s e =
      let by_mac : MySqlHttpData m.Connection → Outcome (MySqlHttpData m.Connection × Bool) =
        and_then (mysql_methods m) (length s.http.macaddr == 0) (inherited m base_activate_by_mac)
          (λ v. done (v, true)) in
      let by_chip_id : MySqlHttpData m.Connection → Outcome (MySqlHttpData m.Connection × Bool) =
        and_then (mysql_methods m) (length s.http.chipid == 0)
          (inherited m base_activate_by_chip_id) by_mac in
      and_then-Fits (length s.http.stbid == 0) (inherited m base_activate_by_stbid) by_chip_id s 0
        100 (omega arith) (omega arith) (rw e (omega arith))
        (inherited-Fits base_activate_by_stbid (codes "ActivateState=StbId") s 0 100 refl
          (rw e (omega arith)) (omega arith) (omega arith))
        λ t i.
          and_then-Fits (length s.http.chipid == 0) (inherited m base_activate_by_chip_id) by_mac t
            100 200 (omega arith) (omega arith) i
            (inherited-Fits base_activate_by_chip_id (codes "ActivateState=ChipId") t 100 200 refl i
              (omega arith) (omega arith))
            λ u j.
              and_then-Fits (length s.http.macaddr == 0) (inherited m base_activate_by_mac)
                (λ v. done (v, true)) u 200 300 (omega arith) (omega arith) j
                (inherited-Fits base_activate_by_mac (codes "ActivateState=Mac") u 200 300 refl j
                  (omega arith) (omega arith))
                (λ v k. omega (arith, k))

  module _ (s : MySqlHttpData m.Connection) (e : s.http.payloadbuf ≡ []) where
    append_count-Fits :
        (r : ResultSet) (label : Bytes)
        → IsModest r
        → length label ≤ 100
        → Returns (append_count m s label (to_int32 (length r.rows))) FitsPayload
    append_count-Fits r label k h = rw (append_count-done m s r k label e h) (
        omega (
          arith,
          length-append label (decimal (length r.rows)),
          length-decimal 6 (length r.rows) k.rows_few,
          h,
        ))

    pub after_sum-Fits :
        (o : Option ResultSet) → IsModestIfAny o → Returns (after_sum m s o) FitsPayload
    unfolding after_sum
    after_sum-Fits none k = rw e (omega arith)
    after_sum-Fits (some r) k =
        Returns-shown r _ FitsPayload k (append_count-Fits r (codes "AuthSum=") k (omega arith))

    pub after_state-Fits :
        (o : Option ResultSet) → IsModestIfAny o → Returns (after_state m s o) FitsPayload
    unfolding after_state
    after_state-Fits none k = rw e (omega arith)
    after_state-Fits (some r) k =
        Returns-shown r _ FitsPayload k
          (elim (Bool-cases (is_below_one m (to_int32 (length r.rows)))) [
            | inl b ↦ rw b (rw e (omega arith))
            | inr b ↦ rw b (append_count-Fits r (codes "AuthState=") k (omega arith))
          ])
