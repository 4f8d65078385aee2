-- ===== src/HttpData/Reply.antt =====
-- `HandleHttpData` follows the protocol.
use amsserver.Crt.Bounds.{strncpy_s-done}
use amsserver.Crt.Equality.{equal_iff}
use amsserver.HttpData.Parse.{parse_query_auth, parse_query_type, parse_query, parse_recv_buf}
use mathlib.Core.Path.{subst}
use native.Mathlib.Decide.{ℕ_discrete}
use amsserver.HttpData.Auth.{IsDue, accept, Judged, accepted, refused, parse_query_auth-Judged}
use amsserver.Crt.Text.{same_start, equal}
use amsserver.HttpData.Items.{Items, IsAccepted, items, read_value-kept}
use amsserver.HttpData.Build.{
  build_error_payload, build_payload, dispatch_flag, http_methods, on_base, build_query_auth_state,
  append_payload, base_auth_sum, base_auth_by_stbid, base_auth_by_chip_id, base_auth_by_mac,
  handle_http_data,
}
use amsserver.HttpData.State.{
  Errorcode, HttpData, k_null_error, k_query_number_undefine, k_query_len_is_wrong, k_no_field,
  k_error_flag, refuse, new,
}
use amsserver.Base.{
  ℕ, ◌≡◌, refl, Bytes, codes, length, ◌<◌, [], true, ◌≢◌, ◌++◌, false, done, arith, Returns, ◌∙◌,
  ◌>>=◌, Returns-bind, Bool-cases, inl, inr,
}
use amsserver.HttpData.Protocol.{
  error_text, query_type, IsQuery, IsAuth, IsSilent, Payload, sum, by_stbid, by_chip_id, by_mac,
  auth_error, query_length, query_number, no_field, Reply, answered, silent, IsFresh,
}

build_error_payload-text :
    (c : Errorcode) (d : HttpData)
    → d.errorcode ≡ c
    → d.payloadbuf ≡ []
    → c ≢ k_null_error
    → build_error_payload d
      ≡ done (record d { payloadbuf = codes "ErrorCode=" ++ error_text c }, true)
unfolding build_error_payload
build_error_payload-text k_null_error d e p h = absurd (h refl)
build_error_payload-text k_no_field d e p h = ground arith
build_error_payload-text _ d e p h = ground arith

IsDue-ne-null : (c : Errorcode) (i : Items) → IsDue c i → c ≢ k_null_error
IsDue-ne-null k_null_error i due = absurd due
IsDue-ne-null k_no_field i due = absurd due
IsDue-ne-null _ i due = λ e. cc

build_payload-error :
    (e : HttpData)
    → e.sendflag ≡ k_error_flag
    → e.errorcode ≢ k_null_error
    → e.payloadbuf ≡ []
    → build_payload http_methods e
      ≡ done (record e { payloadbuf = codes "ErrorCode=" ++ error_text e.errorcode }, true)
unfolding build_payload dispatch_flag on_base
build_payload-error e f c p = ground (arith, build_error_payload-text e.errorcode e refl p c)

differ : (a b : Bytes) → equal a b ≡ false → a ≢ b
differ a b h e = cc (h, (equal_iff a b).1 e)

module _ (sizes : Bytes → ℕ) (d : HttpData) (t : Bytes) where
  type_length : length t ≢ 1 → parse_query_type sizes d t ≡ done (refuse d k_query_len_is_wrong)
  unfolding parse_query_type
  type_length l = ground arith

  type_zero :
      length t ≡ 1
      → equal t (codes "0") ≡ true
      → parse_query_type sizes d t ≡ parse_query_auth sizes d
  unfolding parse_query_type
  type_zero l z = ground arith

  type_one :
      length t ≡ 1
      → equal t (codes "0") ≡ false
      → equal t (codes "1") ≡ true
      → parse_query_type sizes d t ≡ done d
  unfolding parse_query_type
  type_one l z o = ground arith

  type_other :
      length t ≡ 1
      → equal t (codes "0") ≡ false
      → equal t (codes "1") ≡ false
      → parse_query_type sizes d t ≡ done (refuse d k_query_number_undefine)
  unfolding parse_query_type
  type_other l z o = ground arith

module _ (sizes : Bytes → ℕ) (d : HttpData) (fresh : IsFresh d) where
  built :
      (e : HttpData) (text : Bytes)
      → build_payload http_methods e ≡ done (record e { payloadbuf = text }, true)
      → Payload sizes d.recvdatabuf (items sizes d.recvdatabuf) text
      → Returns (build_payload http_methods e) (Reply sizes d.recvdatabuf)
  built e text b r = rw b (answered refl r)

  -- A refusal for which the protocol has a payload.
  refusal :
      (e : HttpData)
      → e.sendflag ≡ k_error_flag
      → e.errorcode ≢ k_null_error
      → e.payloadbuf ≡ d.payloadbuf
      → Payload sizes d.recvdatabuf
          (items sizes d.recvdatabuf)
          (codes "ErrorCode=" ++ error_text e.errorcode)
      → Returns (build_payload http_methods e) (Reply sizes d.recvdatabuf)
  refusal e f c p r = built e _ (build_payload-error e f c (p ∙ fresh.no_payload)) r

  acceptance :
      (i : Items)
      → i ≡ items sizes d.recvdatabuf
      → IsAuth sizes d.recvdatabuf
      → IsAccepted i
      → Returns (build_payload http_methods (accept i d)) (Reply sizes d.recvdatabuf)
  unfolding build_payload dispatch_flag on_base build_query_auth_state append_payload base_auth_sum
      base_auth_by_stbid base_auth_by_chip_id base_auth_by_mac
  acceptance i p a v = elim (ℕ_discrete (length i.stb) 0) [
    | no s ↦ reply (codes "AuthState=StbId") (ground arith) (by_stbid a v (omega arith) refl)
    | yes s ↦ elim (ℕ_discrete (length i.chip) 0) [
      | no c ↦ reply (codes "AuthState=ChipId") (ground arith) (by_chip_id a v s (omega arith) refl)
      | yes c ↦ elim (ℕ_discrete (length i.mac) 0) [
        | no m ↦ reply (codes "AuthState=Mac") (ground arith) (by_mac a v s c (omega arith) refl)
        | yes m ↦ reply (codes "AuthSum=0") (ground arith) (sum a v s c m refl)
      ]
    ]
  ]
    where
      reply :
          (text : Bytes)
          → build_payload http_methods (accept i d)
            ≡ done (record (accept i d) { payloadbuf = text }, true)
          → Payload sizes d.recvdatabuf i text
          → Returns (build_payload http_methods (accept i d)) (Reply sizes d.recvdatabuf)
      reply text b r =
          built (accept i d) text b (subst (λ j. Payload sizes d.recvdatabuf j text) p r)

  judgement :
      (e : HttpData)
      → IsAuth sizes d.recvdatabuf
      → Judged (items sizes d.recvdatabuf) d e
      → Returns (build_payload http_methods e) (Reply sizes d.recvdatabuf)
  judgement e a (accepted v p) = rw p (acceptance (items sizes d.recvdatabuf) refl a v)
  judgement e a (refused f due p) =
      refusal e f (IsDue-ne-null e.errorcode (items sizes d.recvdatabuf) due) p
        (auth_error e.errorcode a due refl)

  auth_reply :
      IsAuth sizes d.recvdatabuf
      → Returns
          (parse_query_auth sizes d >>= build_payload http_methods)
          (Reply sizes d.recvdatabuf)
  auth_reply a =
      Returns-bind (parse_query_auth sizes d) (build_payload http_methods)
        (Judged (items sizes d.recvdatabuf) d) (Reply sizes d.recvdatabuf)
        (parse_query_auth-Judged sizes d fresh.small) (λ e j. judgement e a j)

  -- A silent request leaves the object as it was made.
  silence :
      IsSilent sizes d.recvdatabuf
      → Returns (build_payload http_methods d) (Reply sizes d.recvdatabuf)
  unfolding build_payload dispatch_flag
  silence s = rw (fresh.no_flag, dispatch_flag) (silent s refl fresh.no_payload)

  query_reply :
      IsQuery d.recvdatabuf
      → Returns (parse_query sizes d >>= build_payload http_methods) (Reply sizes d.recvdatabuf)
  unfolding parse_query
  query_reply q =
      rw (read_value-kept sizes (codes "Query=") d.recvdatabuf (omega arith) fresh.small)
        (elim (ℕ_discrete (length t) 1) [
          | no l ↦
              rw (type_length sizes d t l) (
                refusal (refuse d k_query_len_is_wrong) refl (λ e. cc) refl (query_length q l refl))
          | yes l ↦ elim (Bool-cases (equal t (codes "0"))) [
            | inl z ↦ rw (type_zero sizes d t l z) (auth_reply (q, (equal_iff _ _).0 z))
            | inr z ↦ elim (Bool-cases (equal t (codes "1"))) [
              | inl o ↦ rw (type_one sizes d t l z o) (silence (inl (q, (equal_iff _ _).0 o)))
              | inr o ↦ rw (type_other sizes d t l z o) (
                  refusal (refuse d k_query_number_undefine) refl (λ e. cc) refl
                    (query_number q l (differ t (codes "0") z) (differ t (codes "1") o) refl))
            ]
          ]
        ])
    where
      t : Bytes
      t = query_type sizes d.recvdatabuf

  -- `HandleHttpData` on a new object ends without a fault and follows the protocol.
  pub handle_http_data-Reply : Returns (handle_http_data sizes d) (Reply sizes d.recvdatabuf)
  unfolding handle_http_data parse_recv_buf
  handle_http_data-Reply = elim (Bool-cases (same_start 6 d.recvdatabuf (codes "Query="))) [
    | inl q ↦ rw q (query_reply q)
    | inr q ↦ elim (Bool-cases (same_start 9 d.recvdatabuf (codes "Activate="))) [
      | inl a ↦ rw (q, a) (silence (inr ((λ y. cc), a)))
      | inr a ↦
          rw (q, a)
            (refusal (refuse d k_no_field) refl (λ e. cc) refl (no_field (λ y. cc) (λ y. cc) refl))
    ]
  ]

-- A new object for a text that the lines of the log have room for.
pub new-IsFresh :
    (s : Bytes) → length s < 980 → Returns (new s) (λ d. IsFresh d × (d.recvdatabuf ≡ s))
unfolding new
new-IsFresh s h =
    rw (strncpy_s-done 1024 s (omega (arith, h)))
      (record { small = h; no_payload = refl; no_flag = refl }, refl)

-- A request of fewer than 980 bytes, so that the lines of the log fit, is handled without a
-- fault, whatever sizes sscanf_s reads, and the reply is the one that the protocol gives for the
-- text.
pub handle-Reply :
    (sizes : Bytes → ℕ) (s : Bytes)
    → length s < 980
    → Returns (new s >>= handle_http_data sizes) (Reply sizes s)
handle-Reply sizes s h =
    Returns-bind (new s) (handle_http_data sizes) (λ d. IsFresh d × (d.recvdatabuf ≡ s))
      (Reply sizes s) (new-IsFresh s (omega arith))
      (λ d f.
        subst (λ r. Returns (handle_http_data sizes d) (Reply sizes r)) f.1
          (handle_http_data-Reply sizes d f.0))
