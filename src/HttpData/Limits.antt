-- ===== src/HttpData/Limits.antt =====
-- The five values of the protocol stay within their buffers.
use amsserver.HttpData.Protocol.{query_type}
use amsserver.Crt.Text.{same_start, equal}
use amsserver.HttpData.Parse.{parse_query_type, parse_recv_buf, parse_query_auth, parse_query}
use amsserver.HttpData.State.{
  k_no_field, k_query_len_is_wrong, k_query_number_undefine, HttpData, Errorcode, refuse,
  projectid_length, vendorid_length, stbid_length, chipid_length, mac_length,
}
use amsserver.Base.{
  inl, inr, Bytes, length, arith, ℕ, ◌≤◌, Returns, Bool-cases, Returns-eq, not, ◌==◌, codes, refl,
  ◌≡◌,
}
use amsserver.HttpData.Items.{
  Items, after_query_auth, IsSmall, parse_query_auth-after, items, read_value-kept,
}

pub record HasLimits (d : HttpData) : Type 0 where
  pub project_fits : length d.projectid ≤ projectid_length
  pub vendor_fits : length d.vendorid ≤ vendorid_length
  pub stb_fits : length d.stbid ≤ stbid_length
  pub chip_fits : length d.chipid ≤ chipid_length
  pub mac_fits : length d.macaddr ≤ mac_length

-- What parsing leaves of the object: the limits hold, and no payload was written.
pub record Parsed (d e : HttpData) : Type 0 where
  pub limits : HasLimits e
  pub payload_kept : e.payloadbuf ≡ d.payloadbuf

after_query_auth-HasLimits :
    (i : Items) (d : HttpData) → HasLimits d → HasLimits (after_query_auth i d)
unfolding after_query_auth
after_query_auth-HasLimits i d l = record {
  project_fits = ground arith;
  vendor_fits = ground arith;
  stb_fits = ground arith;
  chip_fits = ground arith;
  mac_fits = ground arith;
}

after_query_auth-Parsed : (i : Items) (d : HttpData) → HasLimits d → Parsed d (after_query_auth i d)
unfolding after_query_auth
after_query_auth-Parsed i d l = record {
  limits = after_query_auth-HasLimits i d l;
  payload_kept = ground arith;
}

refuse-HasLimits : (d : HttpData) (c : Errorcode) → HasLimits d → HasLimits (refuse d c)
refuse-HasLimits d c l = ground arith

refuse-Parsed : (d : HttpData) (c : Errorcode) → HasLimits d → Parsed d (refuse d c)
refuse-Parsed d c l = record { limits = refuse-HasLimits d c l; payload_kept = refl }

module _ (sizes : Bytes → ℕ) (d : HttpData) (small : IsSmall d) (l : HasLimits d) where
  parse_query_auth-Parsed : Returns (parse_query_auth sizes d) (Parsed d)
  parse_query_auth-Parsed =
      Returns-eq _ _ _ (parse_query_auth-after sizes d small)
        (after_query_auth-Parsed (items sizes d.recvdatabuf) d l)

  parse_query_type-Parsed : (t : Bytes) → Returns (parse_query_type sizes d t) (Parsed d)
  unfolding parse_query_type
  parse_query_type-Parsed t = elim (Bool-cases (not (length t == 1))) [
    | inl a ↦ rw a (refuse-Parsed d k_query_len_is_wrong l)
    | inr a ↦ elim (Bool-cases (equal t (codes "0"))) [
      | inl b ↦ rw (a, b) parse_query_auth-Parsed
      | inr b ↦ elim (Bool-cases (equal t (codes "1"))) [
        | inl c ↦ rw (a, b, c) (record { limits = l; payload_kept = refl })
        | inr c ↦ rw (a, b, c) (refuse-Parsed d k_query_number_undefine l)
      ]
    ]
  ]

  -- Parsing a text of fewer than 980 bytes ends without a fault and keeps each of the five values
  -- within its protocol length, so within its buffer. It writes no payload.
  pub parse_recv_buf-Parsed : Returns (parse_recv_buf sizes d) (Parsed d)
  unfolding parse_recv_buf parse_query
  parse_recv_buf-Parsed = elim (Bool-cases (same_start 6 d.recvdatabuf (codes "Query="))) [
    | inl q ↦ rw q (
        rw (read_value-kept sizes (codes "Query=") d.recvdatabuf (omega arith) small)
          (parse_query_type-Parsed (query_type sizes d.recvdatabuf)))
    | inr q ↦ elim (Bool-cases (same_start 9 d.recvdatabuf (codes "Activate="))) [
      | inl a ↦ rw (q, a) (record { limits = l; payload_kept = refl })
      | inr a ↦ rw (q, a) (refuse-Parsed d k_no_field l)
    ]
  ]
