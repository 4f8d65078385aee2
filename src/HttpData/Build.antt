-- ===== src/HttpData/Build.antt =====
-- `BuildPayLoad` and what it calls, and `HandleHttpData`. The virtual methods are a record of
-- functions on the state of the class that runs, as a derived class may replace them.
use amsserver.Base.{
  ℕ, Option, some, Bool, true, false, ◌==◌, if◌then◌else◌, get_elem?, length, Bytes, codes, Outcome,
  ◌>>=◌, done, crash, null_pointer,
}
use amsserver.Crt.Text.{strcat_s}
use amsserver.HttpData.State.{
  HttpData, SendFlag, Errorcode, k_error_flag, k_query_auth_state, k_query_auth_sum,
  k_query_activate_state, k_query_activate_sum, k_activate_succeed, k_activate_failed, k_null_flag,
  k_null_error, error_number, error_context, payload_buffer_length,
}
use amsserver.HttpData.Parse.{parse_recv_buf}

-- `strcat_s(payloadbuf, PAYLOAD_BUFFER_LENGTH, text); return TRUE;`
unfoldable pub append_payload : HttpData → Bytes → Outcome (HttpData × Bool)
unfolding strcat_s
append_payload d text = do
  payloadbuf ← strcat_s payload_buffer_length payload_buffer_length d.payloadbuf text
  done (record d { payloadbuf = payloadbuf }, true)

unfoldable pub append_context : HttpData → Option (Option Bytes) → Outcome (HttpData × Bool)
append_context d (some (some context)) = append_payload d context
append_context d _ = crash null_pointer

unfoldable pub is_null_error : Errorcode → Bool
is_null_error k_null_error = true
is_null_error _ = false

unfoldable pub build_error_payload : HttpData → Outcome (HttpData × Bool)
unfolding is_null_error append_context append_payload error_number
build_error_payload d = if is_null_error d.errorcode then done (d, false) else do
  (e, _) ← append_payload d (codes "ErrorCode=")
  append_context e (get_elem? error_context (error_number e.errorcode))

-- A class in the hierarchy: its state `S` holds an `HttpData`, and the virtual methods act on it.
pub record Methods (S : Type 0) : Type 0 where
  pub base : S → HttpData
  pub with_base : S → HttpData → S
  pub build_query_auth_sum : S → Outcome (S × Bool)
  pub build_query_auth_by_stbid : S → Outcome (S × Bool)
  pub build_query_auth_by_chip_id : S → Outcome (S × Bool)
  pub build_query_auth_by_mac : S → Outcome (S × Bool)
  pub build_query_activate_sum : S → Outcome (S × Bool)
  pub build_query_activate_by_stbid : S → Outcome (S × Bool)
  pub build_query_activate_by_chip_id : S → Outcome (S × Bool)
  pub build_query_activate_by_mac : S → Outcome (S × Bool)

module _ {S : Type 0} (m : Methods S) where
  open m use {base, with_base}

  -- A method of the base class, on the state of the derived one.
  unfoldable pub on_base : (HttpData → Outcome (HttpData × Bool)) → S → Outcome (S × Bool)
  on_base f s = do (d, r) ← f (base s); done (with_base s d, r)

  unfoldable pub build_query_auth_state : S → Outcome (S × Bool)
  build_query_auth_state s =
      if length (base s).stbid == 0
      then (if length (base s).chipid == 0
          then (if length (base s).macaddr == 0
              then done (s, false)
              else m.build_query_auth_by_mac s)
          else m.build_query_auth_by_chip_id s)
      else m.build_query_auth_by_stbid s

  -- One `if` of `BuildQueryActivateStatePayLoad`, and the rest of it.
  unfoldable pub and_then :
      Bool → (S → Outcome (S × Bool)) → (S → Outcome (S × Bool)) → S → Outcome (S × Bool)
  and_then absent build rest s =
      if absent then rest s else do (t, built) ← build s; if built then rest t else done (t, false)

  unfoldable pub build_query_activate_state : S → Outcome (S × Bool)
  unfolding and_then
  build_query_activate_state s =
      and_then (length (base s).stbid == 0) m.build_query_activate_by_stbid
        (and_then (length (base s).chipid == 0) m.build_query_activate_by_chip_id (
          and_then (length (base s).macaddr == 0) m.build_query_activate_by_mac
            (λ t. done (t, true))))
        s

  -- The `switch` of `BuildPayLoad`.
  unfoldable pub dispatch_flag : SendFlag → S → Outcome (S × Bool)
  unfolding on_base
  dispatch_flag k_error_flag s = on_base build_error_payload s
  dispatch_flag k_query_auth_state s = build_query_auth_state s
  dispatch_flag k_query_auth_sum s = m.build_query_auth_sum s
  dispatch_flag k_query_activate_state s = build_query_activate_state s
  dispatch_flag k_query_activate_sum s = m.build_query_activate_sum s
  dispatch_flag k_activate_succeed s = done (s, true)
  dispatch_flag k_activate_failed s = done (s, true)
  dispatch_flag k_null_flag s = done (s, false)

  unfoldable pub build_payload : S → Outcome (S × Bool)
  build_payload s = dispatch_flag (base s).sendflag s

-- The methods of `HttpData` itself.
unfoldable pub base_auth_sum : HttpData → Outcome (HttpData × Bool)
base_auth_sum d = append_payload d (codes "AuthSum=0")

unfoldable pub base_auth_by_stbid : HttpData → Outcome (HttpData × Bool)
base_auth_by_stbid d = append_payload d (codes "AuthState=StbId")

unfoldable pub base_auth_by_chip_id : HttpData → Outcome (HttpData × Bool)
base_auth_by_chip_id d = append_payload d (codes "AuthState=ChipId")

unfoldable pub base_auth_by_mac : HttpData → Outcome (HttpData × Bool)
base_auth_by_mac d = append_payload d (codes "AuthState=Mac")

unfoldable pub base_activate_sum : HttpData → Outcome (HttpData × Bool)
base_activate_sum d = append_payload d (codes "ActivateSum=0")

unfoldable pub base_activate_by_stbid : HttpData → Outcome (HttpData × Bool)
base_activate_by_stbid d = append_payload d (codes "ActivateState=StbId")

unfoldable pub base_activate_by_chip_id : HttpData → Outcome (HttpData × Bool)
base_activate_by_chip_id d = append_payload d (codes "ActivateState=ChipId")

unfoldable pub base_activate_by_mac : HttpData → Outcome (HttpData × Bool)
base_activate_by_mac d = append_payload d (codes "ActivateState=Mac")

abbrev pub http_methods : Methods HttpData
http_methods = record {
  base = λ d. d;
  with_base = λ _ d. d;
  build_query_auth_sum = base_auth_sum;
  build_query_auth_by_stbid = base_auth_by_stbid;
  build_query_auth_by_chip_id = base_auth_by_chip_id;
  build_query_auth_by_mac = base_auth_by_mac;
  build_query_activate_sum = base_activate_sum;
  build_query_activate_by_stbid = base_activate_by_stbid;
  build_query_activate_by_chip_id = base_activate_by_chip_id;
  build_query_activate_by_mac = base_activate_by_mac;
}

unfoldable pub handle_http_data : (Bytes → ℕ) → HttpData → Outcome (HttpData × Bool)
handle_http_data sizes d = do e ← parse_recv_buf sizes d; build_payload http_methods e
