-- ===== src/HttpData/RoundTrip.antt =====
-- A request that a client writes as the protocol asks is read back item by item.

use amsserver.HttpData.Auth.{accept}
use amsserver.HttpData.State.{HttpData}
use amsserver.HttpData.Parse.{parse_recv_buf, parse_query, parse_query_type, parse_query_auth}
use amsserver.HttpData.Protocol.{query_type, IsQuery}
use amsserver.Crt.Text.{strstr, same_start, equal}
use amsserver.Crt.Scan.{matched, scan_value}
use amsserver.Crt.Search.{Lacks, before-value, strstr-value, before_all}
use amsserver.Base.{
  refl, ◌≡◌, ◌∷◌, [], Bytes, codes, ◌++◌, ℕ, length, ◌<◌, arith, done, ◌∙◌, length-append, ap,
}
use amsserver.HttpData.Items.{
  Items, kept, value_at, item, IsAccepted, items, after_query_auth, IsSmall, parse_query_auth-after,
  read_value-kept,
}

-- The request for the authorisation, with all five items.
abbrev pub request : Items → Bytes
request i =
    codes "Query=0&ProjectID="
    ++ (i.project
        ++ (codes "&VendorID="
            ++ (i.vendor
                ++ (codes "&STBID="
                    ++ (i.stb ++ (codes "&ChipID=" ++ (i.chip ++ (codes "&MAC=" ++ i.mac))))))))

-- A value that can stand in a request.
abbrev pub IsPlain : Bytes → Type 0
IsPlain t = Lacks b'=' t × Lacks b'&' t

pub record IsWritable (i : Items) : Type 0 where
  pub project_plain : IsPlain i.project
  pub vendor_plain : IsPlain i.vendor
  pub stb_plain : IsPlain i.stb
  pub chip_plain : IsPlain i.chip
  pub mac_plain : IsPlain i.mac

kept-matched : (size : ℕ) (v : Bytes) → length v < size → kept size (matched v) ≡ v
unfolding kept matched
kept-matched size [] h = refl
kept-matched size (x ∷ v) h = ground arith

module _ (i : Items) (w : IsWritable i) (size : ℕ) where
  find_project :
      value_at size (strstr (request i) (codes "ProjectID=")) ≡ kept size (matched i.project)
  unfolding value_at strstr scan_value
  find_project = rw (before-value i.project _ w.project_plain.1)

  find_vendor :
      value_at size (strstr (request i) (codes "VendorID=")) ≡ kept size (matched i.vendor)
  unfolding value_at strstr scan_value
  find_vendor = rw (
    strstr-value (codes "VendorID=") i.project _ refl refl w.project_plain.0,
    before-value i.vendor _ w.vendor_plain.1,
  )

  find_stb : value_at size (strstr (request i) (codes "STBID=")) ≡ kept size (matched i.stb)
  unfolding value_at strstr scan_value
  find_stb = rw (
    strstr-value (codes "STBID=") i.project _ refl refl w.project_plain.0,
    strstr-value (codes "STBID=") i.vendor _ refl refl w.vendor_plain.0,
    before-value i.stb _ w.stb_plain.1,
  )

  find_chip : value_at size (strstr (request i) (codes "ChipID=")) ≡ kept size (matched i.chip)
  unfolding value_at strstr scan_value
  find_chip = rw (
    strstr-value (codes "ChipID=") i.project _ refl refl w.project_plain.0,
    strstr-value (codes "ChipID=") i.vendor _ refl refl w.vendor_plain.0,
    strstr-value (codes "ChipID=") i.stb _ refl refl w.stb_plain.0,
    before-value i.chip _ w.chip_plain.1,
  )

  find_mac : value_at size (strstr (request i) (codes "MAC=")) ≡ kept size (matched i.mac)
  unfolding value_at strstr scan_value
  find_mac = rw (
    strstr-value (codes "MAC=") i.project _ refl refl w.project_plain.0,
    strstr-value (codes "MAC=") i.vendor _ refl refl w.vendor_plain.0,
    strstr-value (codes "MAC=") i.stb _ refl refl w.stb_plain.0,
    strstr-value (codes "MAC=") i.chip _ refl refl w.chip_plain.0,
    before_all b'&' i.mac w.mac_plain.1,
  )

module _ (sizes : Bytes → ℕ) (i : Items) (big : (k : Bytes) → 32 < sizes k) where
  module _ (v : IsAccepted i) (w : IsWritable i) where
    items-request : items sizes (request i) ≡ i
    unfolding item
    items-request = λ j. record {
      project =
          (find_project i w (sizes (codes "ProjectID="))
              ∙ kept-matched _ i.project (omega (arith, big (codes "ProjectID="))))
            j;
      vendor =
          (find_vendor i w (sizes (codes "VendorID="))
              ∙ kept-matched _ i.vendor (omega (arith, big (codes "VendorID="))))
            j;
      stb =
          (find_stb i w (sizes (codes "STBID="))
              ∙ kept-matched _ i.stb (omega (arith, big (codes "STBID="))))
            j;
      chip =
          (find_chip i w (sizes (codes "ChipID="))
              ∙ kept-matched _ i.chip (omega (arith, big (codes "ChipID="))))
            j;
      mac =
          (find_mac i w (sizes (codes "MAC="))
              ∙ kept-matched _ i.mac (omega (arith, big (codes "MAC="))))
            j;
    }

  query_type-request : query_type sizes (request i) ≡ codes "0"
  unfolding scan_value kept
  query_type-request = ground (arith, big (codes "Query="))

  length-request : IsAccepted i → length (request i) < 980
  length-request v = simp (length-append) (omega arith)

after_query_auth-accept :
    (i : Items) (d : HttpData) → IsAccepted i → after_query_auth i d ≡ accept i d
unfolding after_query_auth
after_query_auth-accept i d v = ground arith

parse_recv_buf-query :
    (sizes : Bytes → ℕ) (d : HttpData)
    → IsQuery d.recvdatabuf
    → IsSmall d
    → parse_recv_buf sizes d ≡ parse_query_type sizes d (query_type sizes d.recvdatabuf)
unfolding parse_recv_buf parse_query
parse_recv_buf-query sizes d q h =
    rw q (rw (read_value-kept sizes (codes "Query=") d.recvdatabuf (omega arith) h))

parse_query_type-zero :
    (sizes : Bytes → ℕ) (d : HttpData)
    → parse_query_type sizes d (codes "0") ≡ parse_query_auth sizes d
unfolding parse_query_type equal
parse_query_type-zero sizes d = refl

-- The request written from accepted items is parsed back, if no value has '=' or '&' and sscanf_s reads
-- sizes of more than 32 bytes at each call: the object then holds the same items and the flag for them.
pub parse_recv_buf-request :
    (sizes : Bytes → ℕ) (i : Items) (d : HttpData)
    → ((k : Bytes) → 32 < sizes k)
    → IsAccepted i
    → IsWritable i
    → d.recvdatabuf ≡ request i
    → parse_recv_buf sizes d ≡ done (accept i d)
unfolding same_start
parse_recv_buf-request sizes i d big v w e =
    let small : IsSmall d = rw e (length-request sizes i big v) in
    parse_recv_buf-query sizes d (rw e refl) small
    ∙ ap (λ r. parse_query_type sizes d (query_type sizes r)) e
    ∙ ap (parse_query_type sizes d) (query_type-request sizes i big)
    ∙ parse_query_type-zero sizes d
    ∙ parse_query_auth-after sizes d small
    ∙ ap (λ r. done (after_query_auth (items sizes r) d)) e
    ∙ ap (λ j. done (after_query_auth j d)) (items-request sizes i big v w)
    ∙ ap done (after_query_auth-accept i d v)
