-- ===== src/Tests/Requests.antt =====
-- Tests of the protocol.
use amsserver.Log.{ams_dbug_log}
use amsserver.Crt.Scan.{store_token, scan_value}
use amsserver.HttpData.Auth.{accept, Judged, parse_query_auth-Judged}
use amsserver.HttpData.Reply.{handle-Reply}
use amsserver.HttpData.Protocol.{Reply, silent}
use amsserver.HttpData.Build.{
  handle_http_data, build_payload, dispatch_flag, build_query_auth_state, append_payload,
  append_context, build_error_payload, on_base, base_auth_sum,
}
use amsserver.HttpData.Limits.{HasLimits, Parsed, parse_recv_buf-Parsed}
use amsserver.HttpData.Parse.{
  parse_recv_buf, parse_query_auth, parse_query, parse_query_type, parse_item, parse_vendor_id,
  parse_stbid, parse_chip_id, parse_mac, choose_flag, read_value,
}
use amsserver.HttpData.RoundTrip.{IsWritable, request, parse_recv_buf-request}
use amsserver.HttpData.Items.{IsAccepted, items}
use amsserver.Crt.Text.{same_start, strncpy_s, equal, strstr, strcat_s}
use amsserver.HttpData.State.{new}
use amsserver.Base.{
  refl, ◌≡◌, [], false, inl, inr, done, crash, Bytes, Returns, codes, ◌>>=◌, arith,
}
use amsserver.Tests.{large, box, holding}

abbrev sum_query : Bytes
sum_query = codes "Query=0&ProjectID=P1&VendorID=V1"

-- The reply to a whole text.
abbrev reply_text : Bytes → Bytes
reply_text text = elim (new text >>= handle_http_data large) [
  | done (d, r) ↦ d.payloadbuf
  | crash e ↦ []
]

test_sum : reply_text sum_query ≡ codes "AuthSum=0"
unfolding new handle_http_data strncpy_s parse_recv_buf same_start parse_query store_token
    scan_value parse_query_type equal parse_query_auth parse_item read_value ams_dbug_log strstr
    parse_vendor_id parse_stbid parse_chip_id parse_mac build_payload dispatch_flag
    build_query_auth_state append_payload strcat_s choose_flag append_context build_error_payload
    on_base base_auth_sum
test_sum = refl

test_no_vendor : reply_text (codes "Query=0&ProjectID=P1") ≡ codes "ErrorCode=NoVendorID"
unfolding new handle_http_data strncpy_s parse_recv_buf same_start parse_query store_token
    scan_value parse_query_type equal parse_query_auth parse_item read_value ams_dbug_log strstr
    parse_vendor_id parse_stbid parse_chip_id parse_mac build_payload dispatch_flag
    build_query_auth_state append_payload strcat_s choose_flag append_context build_error_payload
    on_base base_auth_sum
test_no_vendor = refl

handle-Reply_example : Returns (new sum_query >>= handle_http_data large) (Reply large sum_query)
handle-Reply_example = handle-Reply large sum_query (ground arith)

silent_activate : Reply large (codes "Activate=box7") (holding (codes "Activate=box7"), false)
unfolding same_start
silent_activate = silent (inr (ground arith, refl)) refl refl

pub box-IsAccepted : IsAccepted box
box-IsAccepted = record {
  project_given = ground arith;
  project_fits = ground arith;
  vendor_given = ground arith;
  vendor_fits = ground arith;
  stb_fits = ground arith;
  chip_fits = ground arith;
  mac_whole = inl refl;
}

pub box-IsWritable : IsWritable box
box-IsWritable = record {
  project_plain = ground arith;
  vendor_plain = ground arith;
  stb_plain = ground arith;
  chip_plain = ground arith;
  mac_plain = ground arith;
}

parse_recv_buf-request_example :
    parse_recv_buf large (holding (request box)) ≡ done (accept box (holding (request box)))
parse_recv_buf-request_example =
    parse_recv_buf-request large box (holding (request box)) (λ k. ground arith) box-IsAccepted
      box-IsWritable refl

parse_query_auth-Judged_example :
    Returns
      (parse_query_auth large (holding (codes "Query=0&ProjectID=P1")))
      (Judged (items large (codes "Query=0&ProjectID=P1")) (holding (codes "Query=0&ProjectID=P1")))
parse_query_auth-Judged_example =
    parse_query_auth-Judged large (holding (codes "Query=0&ProjectID=P1")) (ground arith)

holding-HasLimits : HasLimits (holding (request box))
holding-HasLimits = record {
  project_fits = ground arith;
  vendor_fits = ground arith;
  stb_fits = ground arith;
  chip_fits = ground arith;
  mac_fits = ground arith;
}

parse_recv_buf-Parsed_example :
    Returns (parse_recv_buf large (holding (request box))) (Parsed (holding (request box)))
parse_recv_buf-Parsed_example =
    parse_recv_buf-Parsed large (holding (request box)) (ground arith) holding-HasLimits
