-- ===== src/HttpData/Auth.antt =====
-- What `ParseQueryAuth` decides: which requests it accepts, and what it says of the others.
use amsserver.HttpData.Parse.{parse_query_auth}
use native.Mathlib.Decide.{ℕ_discrete, dec_lt}
use amsserver.HttpData.State.{
  HttpData, Errorcode, k_error_flag, refuse, k_query_auth_sum, k_query_auth_state,
  k_mac_len_is_wrong, k_stbid_too_long, k_chip_id_too_long, k_vendor_id_too_long, k_no_vendor_id,
  k_project_id_too_long, k_no_project_id,
}
use amsserver.Base.{
  Bytes, ◌<◌, if◌then◌else◌, ◌≡◌, length, ℕ, ◌≤◌, ◌+◌, ◌==◌, ◌≢◌, Returns, arith, refl,
}
use amsserver.HttpData.Items.{
  Items, IsAccepted, after_query_auth, IsSmall, items, parse_query_auth-after,
}

abbrev IsGiven : Bytes → Type 0
IsGiven t = (0 < length t) × (length t ≤ 8)

-- The object after an accepted request.
abbrev pub accept : Items → HttpData → HttpData
accept i d = record d {
  projectid = i.project;
  vendorid = i.vendor;
  stbid = i.stb;
  chipid = i.chip;
  macaddr = i.mac;
  sendflag =
      if (length i.stb + length i.chip + length i.mac) == 0
      then k_query_auth_sum
      else k_query_auth_state;
}

-- When an error code is the right answer: its own requirement is broken and all that come before
-- it in the protocol are met.
abbrev pub IsDue : Errorcode → Items → Type 0
IsDue k_project_id_too_long i = 8 < length i.project
IsDue k_no_project_id i = length i.project ≡ 0
IsDue k_vendor_id_too_long i = (IsGiven i.project) × (8 < length i.vendor)
IsDue k_no_vendor_id i = (IsGiven i.project) × (length i.vendor ≡ 0)
IsDue k_stbid_too_long i = (IsGiven i.project) × (IsGiven i.vendor) × (32 < length i.stb)
IsDue k_chip_id_too_long i =
    (IsGiven i.project) × (IsGiven i.vendor) × (length i.stb ≤ 32) × (32 < length i.chip)
IsDue k_mac_len_is_wrong i =
    (IsGiven i.project)
    × (IsGiven i.vendor)
    × (length i.stb ≤ 32)
    × (length i.chip ≤ 32)
    × (length i.mac ≢ 12)
    × (length i.mac ≢ 0)
IsDue _ i = ⊥

-- The outcome of a query: the object is filled in, or the error is due and the texts are untouched.
pub data Judged (i : Items) (d e : HttpData) : Type 0 where
  accepted : IsAccepted i → e ≡ accept i d → Judged i d e
  refused :
      e.sendflag ≡ k_error_flag → IsDue e.errorcode i → e.payloadbuf ≡ d.payloadbuf → Judged i d e

refuse-Judged :
    (i : Items) (d d' e : HttpData) (code : Errorcode)
    → e ≡ refuse d' code
    → d'.payloadbuf ≡ d.payloadbuf
    → IsDue code i
    → Judged i d e
refuse-Judged i d d' e code p b due = rw p (refused refl due b)

after_query_auth-Judged : (i : Items) (d : HttpData) → Judged i d (after_query_auth i d)
unfolding after_query_auth
after_query_auth-Judged i d = elim (dec_lt 8 (length i.project)) [
  | yes long ↦ refuse-Judged i d d _ k_project_id_too_long (ground arith) refl long
  | no p ↦ elim (ℕ_discrete (length i.project) 0) [
    | yes absent ↦
        refuse-Judged i d (record d { projectid = i.project }) _ k_no_project_id (ground arith) refl
          absent
    | no p' ↦ vendor (omega arith, omega arith)
  ]
]
  where
    with_project : HttpData
    with_project = record d { projectid = i.project }

    with_vendor : HttpData
    with_vendor = record with_project { vendorid = i.vendor }

    with_stb : HttpData
    with_stb = record with_vendor { stbid = i.stb }

    with_chip : HttpData
    with_chip = record with_stb { chipid = i.chip }

    mac :
        IsGiven i.project
        → IsGiven i.vendor
        → length i.stb ≤ 32
        → length i.chip ≤ 32
        → Judged i d (after_query_auth i d)
    mac p v s c = elim (ℕ_discrete (length i.mac) 12) [
      | yes m ↦ accepted (ground arith) (ground arith)
      | no m ↦ elim (ℕ_discrete (length i.mac) 0) [
        | yes z ↦ accepted (ground arith) (ground arith)
        | no z ↦
            refuse-Judged i d with_chip _ k_mac_len_is_wrong (ground arith) refl (p, v, s, c, m, z)
      ]
    ]

    tail : IsGiven i.project → IsGiven i.vendor → Judged i d (after_query_auth i d)
    tail p v = elim (dec_lt 32 (length i.stb)) [
      | yes long ↦ refuse-Judged i d with_vendor _ k_stbid_too_long (ground arith) refl (p, v, long)
      | no s ↦ elim (dec_lt 32 (length i.chip)) [
        | yes long ↦
            refuse-Judged i d with_stb _ k_chip_id_too_long (ground arith) refl
              (p, v, omega arith, long)
        | no c ↦ mac p v (omega arith) (omega arith)
      ]
    ]

    vendor : IsGiven i.project → Judged i d (after_query_auth i d)
    vendor p = elim (dec_lt 8 (length i.vendor)) [
      | yes long ↦
          refuse-Judged i d with_project _ k_vendor_id_too_long (ground arith) refl (p, long)
      | no v ↦ elim (ℕ_discrete (length i.vendor) 0) [
        | yes absent ↦
            refuse-Judged i d with_vendor _ k_no_vendor_id (ground arith) refl (p, absent)
        | no v' ↦ tail p (omega arith, omega arith)
      ]
    ]

-- On a text of fewer than 980 bytes `ParseQueryAuth` ends without a fault. Either the items meet the
-- protocol, and the object holds them with the flag for a sum if STBID, ChipID and MAC are all
-- empty and for a state if not; or the object has the error flag with the error that is due.
pub parse_query_auth-Judged :
    (sizes : Bytes → ℕ) (d : HttpData)
    → IsSmall d
    → Returns (parse_query_auth sizes d) (Judged (items sizes d.recvdatabuf) d)
parse_query_auth-Judged sizes d h =
    rw (parse_query_auth-after sizes d h) (after_query_auth-Judged (items sizes d.recvdatabuf) d)
