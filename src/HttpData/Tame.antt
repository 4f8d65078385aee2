-- ===== src/HttpData/Tame.antt =====
-- The object of one request is never released while it is used: no fault of its handling is an access
-- to a released object.
use amsserver.Log.{ams_dbug_log, one_log_len}
use amsserver.HttpData.Build.{
  append_payload, append_context, build_error_payload, and_then, dispatch_flag, handle_http_data,
  build_query_auth_state, build_payload, is_null_error, build_query_activate_state, http_methods,
  base_auth_sum, base_auth_by_stbid, base_auth_by_chip_id, base_auth_by_mac, base_activate_sum,
  base_activate_by_stbid, base_activate_by_chip_id, base_activate_by_mac,
}
use amsserver.HttpData.Parse.{
  parse_item, parse_mac, parse_chip_id, parse_stbid, parse_vendor_id, parse_query_auth, parse_query,
  parse_recv_buf, parse_query_type, read_value,
}
use amsserver.Crt.Scan.{store_token, scan_value}
use amsserver.Crt.Text.{strcat_s, strncpy_s, same_start, strstr, equal}
use amsserver.HttpData.State.{
  k_activate_succeed, k_activate_failed, k_query_activate_sum, k_query_auth_sum,
  k_query_activate_state, k_null_flag, k_query_auth_state, k_error_flag, new, recv_buffer_length,
  HttpData, error_context, error_number, SendFlag,
}
use amsserver.Base.{
  IsTame, IsTame-bind, IsTame-if, ℕ, Bytes, [], none, some, done, crash, leb, Option, Bool, length,
  Outcome, codes, ◌+◌, take, overrun, not, ltb, get_elem?, ◌==◌, ◌&&◌, true, ◌++◌,
}

pub strcat_s-IsTame : (c n : ℕ) (s t : Bytes) → IsTame (strcat_s c n s t)
unfolding strcat_s
strcat_s-IsTame c n s t =
    IsTame-if (leb n (length s + length t)) _ _ (λ e. cc)
      (IsTame-if (leb c (length s + length t)) _ _ (λ e. cc) tt)

strncpy_s-IsTame : (n : ℕ) (s : Bytes) (k : ℕ) → IsTame (strncpy_s n s k)
unfolding strncpy_s
strncpy_s-IsTame n s k = IsTame-if (leb n (length (take k s))) _ _ (λ e. cc) tt

pub store_token-IsTame : (c n : ℕ) (s : Bytes) (o : Option Bytes) → IsTame (store_token c n s o)
unfolding store_token
store_token-IsTame c n s none = tt
store_token-IsTame c n s (some t) =
    IsTame-if (leb n (length t)) (done s) _ tt
      (IsTame-if (leb c (length t)) (crash overrun) (done t) (λ e. cc) tt)

pub new-IsTame : (s : Bytes) → IsTame (new s)
unfolding new
new-IsTame s =
    IsTame-bind (strncpy_s recv_buffer_length s (length s)) _
      (strncpy_s-IsTame recv_buffer_length s (length s)) (λ r. tt)

pub ams_dbug_log-IsTame : (t : Bytes) → IsTame (ams_dbug_log t)
unfolding ams_dbug_log
ams_dbug_log-IsTame t = IsTame-if (leb one_log_len (length t)) _ _ (λ e. cc) tt

module _ (sizes : Bytes → ℕ) where
  read_value-IsTame : (k p : Bytes) → IsTame (read_value sizes k p)
  unfolding read_value
  read_value-IsTame k p =
      IsTame-bind (store_token recv_buffer_length (sizes k) [] (scan_value p)) _
        (store_token-IsTame recv_buffer_length (sizes k) [] (scan_value p))
        λ t.
          IsTame-bind (ams_dbug_log (k ++ (t ++ codes "\n"))) _
            (ams_dbug_log-IsTame (k ++ (t ++ codes "\n"))) (λ u. tt)

  parse_item-IsTame : (d : HttpData) (k : Bytes) → IsTame (parse_item sizes d k)
  unfolding parse_item
  parse_item-IsTame d k = found (strstr d.recvdatabuf k)
    where
      found :
          (o : Option Bytes)
          → IsTame
              (elim o as (λ _. Outcome Bytes) [ none ↦ done [] | some p ↦ read_value sizes k p ])
      found none = tt
      found (some p) = read_value-IsTame k p

  parse_mac-IsTame : (d : HttpData) → IsTame (parse_mac sizes d)
  unfolding parse_mac
  parse_mac-IsTame d =
      IsTame-bind (parse_item sizes d (codes "MAC=")) _ (parse_item-IsTame d (codes "MAC=")) λ t.
        IsTame-if (not (length t == 12) && not (length t == 0)) _ _ tt
          (IsTame-bind (strncpy_s 13 t (length t)) _ (strncpy_s-IsTame 13 t (length t)) (λ r. tt))

  parse_chip_id-IsTame : (d : HttpData) → IsTame (parse_chip_id sizes d)
  unfolding parse_chip_id
  parse_chip_id-IsTame d =
      IsTame-bind (parse_item sizes d (codes "ChipID=")) _ (parse_item-IsTame d (codes "ChipID="))
        λ t. IsTame-if (ltb 32 (length t)) _ _ tt (
          IsTame-bind (strncpy_s 33 t (length t)) _ (strncpy_s-IsTame 33 t (length t))
            λ r. parse_mac-IsTame (record d { chipid = r }))

  parse_stbid-IsTame : (d : HttpData) → IsTame (parse_stbid sizes d)
  unfolding parse_stbid
  parse_stbid-IsTame d =
      IsTame-bind (parse_item sizes d (codes "STBID=")) _ (parse_item-IsTame d (codes "STBID="))
        λ t. IsTame-if (ltb 32 (length t)) _ _ tt (
          IsTame-bind (strncpy_s 33 t (length t)) _ (strncpy_s-IsTame 33 t (length t))
            λ r. parse_chip_id-IsTame (record d { stbid = r }))

  parse_vendor_id-IsTame : (d : HttpData) → IsTame (parse_vendor_id sizes d)
  unfolding parse_vendor_id
  parse_vendor_id-IsTame d =
      IsTame-bind (parse_item sizes d (codes "VendorID=")) _
        (parse_item-IsTame d (codes "VendorID="))
        λ t. IsTame-if (ltb 8 (length t)) _ _ tt (
          IsTame-bind (strncpy_s 9 t (length t)) _ (strncpy_s-IsTame 9 t (length t))
            λ r. IsTame-if (length r == 0) _ _ tt (parse_stbid-IsTame (record d { vendorid = r })))

  parse_query_auth-IsTame : (d : HttpData) → IsTame (parse_query_auth sizes d)
  unfolding parse_query_auth
  parse_query_auth-IsTame d =
      IsTame-bind (parse_item sizes d (codes "ProjectID=")) _
        (parse_item-IsTame d (codes "ProjectID="))
        λ t. IsTame-if (ltb 8 (length t)) _ _ tt (
          IsTame-bind (strncpy_s 9 t (length t)) _ (strncpy_s-IsTame 9 t (length t)) λ r.
            IsTame-if (length r == 0) _ _ tt (parse_vendor_id-IsTame (record d { projectid = r })))

  parse_query-IsTame : (d : HttpData) → IsTame (parse_query sizes d)
  unfolding parse_query parse_query_type
  parse_query-IsTame d =
      IsTame-bind (read_value sizes (codes "Query=") d.recvdatabuf) _
        (read_value-IsTame (codes "Query=") d.recvdatabuf)
        λ t. IsTame-if (not (length t == 1)) _ _ tt (
          IsTame-if (equal t (codes "0")) _ _ (parse_query_auth-IsTame d)
            (IsTame-if (equal t (codes "1")) _ _ tt tt))

  pub parse_recv_buf-IsTame : (d : HttpData) → IsTame (parse_recv_buf sizes d)
  unfolding parse_recv_buf
  parse_recv_buf-IsTame d =
      IsTame-if (same_start 6 d.recvdatabuf (codes "Query=")) _ _ (parse_query-IsTame d)
        (IsTame-if (same_start 9 d.recvdatabuf (codes "Activate=")) _ _ tt tt)

append_payload-IsTame : (d : HttpData) (t : Bytes) → IsTame (append_payload d t)
unfolding append_payload
append_payload-IsTame d t =
    IsTame-bind (strcat_s 1024 1024 d.payloadbuf t) _ (strcat_s-IsTame 1024 1024 d.payloadbuf t)
      (λ r. tt)

append_context-IsTame : (d : HttpData) (o : Option (Option Bytes)) → IsTame (append_context d o)
unfolding append_context
append_context-IsTame d (some (some c)) = append_payload-IsTame d c
append_context-IsTame d (some none) = λ e. cc
append_context-IsTame d none = λ e. cc

build_error_payload-IsTame : (d : HttpData) → IsTame (build_error_payload d)
unfolding build_error_payload
build_error_payload-IsTame d = IsTame-if (is_null_error d.errorcode) _ _ tt (
    IsTame-bind (append_payload d (codes "ErrorCode=")) _
      (append_payload-IsTame d (codes "ErrorCode="))
      λ (e, r). append_context-IsTame e (get_elem? error_context (error_number e.errorcode)))

-- One of the appended payloads, and the rest.
and_then-IsTame :
    (b : Bool) (f g : HttpData → Outcome (HttpData × Bool)) (d : HttpData)
    → ((e : HttpData) → IsTame (f e))
    → ((e : HttpData) → IsTame (g e))
    → IsTame (and_then http_methods b f g d)
unfolding and_then
and_then-IsTame b f g d t u =
    IsTame-if b _ _ (u d) (IsTame-bind (f d) _ (t d) λ (e, r). IsTame-if r _ _ (u e) tt)

dispatch_flag-IsTame : (f : SendFlag) (d : HttpData) → IsTame (dispatch_flag http_methods f d)
unfolding dispatch_flag build_query_auth_state build_query_activate_state base_auth_sum
    base_auth_by_stbid base_auth_by_chip_id base_auth_by_mac base_activate_sum
    base_activate_by_stbid base_activate_by_chip_id base_activate_by_mac
dispatch_flag-IsTame k_error_flag d =
    IsTame-bind (build_error_payload d) _ (build_error_payload-IsTame d) (λ (e, r). tt)
dispatch_flag-IsTame k_query_auth_state d =
    IsTame-if (length d.stbid == 0) _ _
      (IsTame-if (length d.chipid == 0) _ _
        (IsTame-if (length d.macaddr == 0) _ _ tt (append_payload-IsTame d _))
        (append_payload-IsTame d _))
      (append_payload-IsTame d _)
dispatch_flag-IsTame k_query_auth_sum d = append_payload-IsTame d _
dispatch_flag-IsTame k_query_activate_state d =
    and_then-IsTame (length d.stbid == 0) base_activate_by_stbid _ d
      (λ e. append_payload-IsTame e (codes "ActivateState=StbId"))
      λ e.
        and_then-IsTame (length d.chipid == 0) base_activate_by_chip_id _ e
          (λ x. append_payload-IsTame x (codes "ActivateState=ChipId"))
          λ x.
            and_then-IsTame (length d.macaddr == 0) base_activate_by_mac (λ y. done (y, true)) x
              (λ y. append_payload-IsTame y (codes "ActivateState=Mac")) (λ y. tt)
dispatch_flag-IsTame k_query_activate_sum d = append_payload-IsTame d _
dispatch_flag-IsTame k_activate_succeed d = tt
dispatch_flag-IsTame k_activate_failed d = tt
dispatch_flag-IsTame k_null_flag d = tt

pub handle_http_data-IsTame : (sizes : Bytes → ℕ) (d : HttpData) → IsTame (handle_http_data sizes d)
unfolding handle_http_data build_payload
handle_http_data-IsTame sizes d =
    IsTame-bind (parse_recv_buf sizes d) _ (parse_recv_buf-IsTame sizes d)
      λ e. dispatch_flag-IsTame e.sendflag e
