-- ===== src/HttpData/Items.antt =====
-- The parser as a function of the five items of a request: what each item holds, which requests
-- are accepted, and that no call of the run-time library fails on the way.
use amsserver.Log.{ams_dbug_log}
use amsserver.Base.{
  ℕ, ◌<◌, ◌≡◌, inl, inr, refl, [], Option, none, some, leb, if◌then◌else◌, length, Bytes, done,
  arith, Option-cases, codes, ◌≤◌, not, ltb, ◌⊎◌, ◌==◌, ◌&&◌, length-append, ◌++◌,
}
use amsserver.Crt.Text.{strstr}
use amsserver.Crt.Scan.{scan_value, store_token}
use amsserver.Crt.Bounds.{Within, strstr-Within, scan_value-Within, strncpy_s-done}
use amsserver.HttpData.State.{
  HttpData, refuse, k_chip_id_too_long, k_stbid_too_long, k_vendor_id_too_long,
  k_project_id_too_long, k_mac_len_is_wrong, k_no_vendor_id, k_no_project_id,
}
use amsserver.HttpData.Parse.{
  parse_item, choose_flag, parse_mac, parse_chip_id, parse_stbid, parse_vendor_id, parse_query_auth,
  read_value,
}

-- The token that a scan leaves in a cleared buffer, given the size that the call reads.
unfoldable pub kept : ℕ → Option Bytes → Bytes
kept size none = []
kept size (some t) = if leb size (length t) then [] else t

unfoldable pub value_at : ℕ → Option Bytes → Bytes
unfolding kept
value_at size none = []
value_at size (some p) = kept size (scan_value p)

-- The value of the item at a location of the received text.
unfoldable pub item : (Bytes → ℕ) → Bytes → Bytes → Bytes
unfolding value_at
item sizes recv location = value_at (sizes location) (strstr recv location)

-- The received text fits in its buffer.
-- So small that a value, its name and the end of the line fit in a line of the log.
abbrev pub IsSmall : HttpData → Type 0
IsSmall d = length d.recvdatabuf < 980

pub store_token-kept :
    (capacity size n : ℕ) (t : Option Bytes)
    → Within n t
    → n < capacity
    → store_token capacity size [] t ≡ done (kept size t)
unfolding store_token kept
store_token-kept capacity size n none w h = refl
store_token-kept capacity size n (some t) w h = ground arith

pub length-kept : (size n : ℕ) (t : Option Bytes) → Within n t → length (kept size t) ≤ n
unfolding kept
length-kept size n none w = omega arith
length-kept size n (some t) w = ground arith

pub read_value-kept :
    (sizes : Bytes → ℕ) (location s : Bytes)
    → length location ≤ 10
    → length s < 980
    → read_value sizes location s ≡ done (kept (sizes location) (scan_value s))
unfolding read_value ams_dbug_log
read_value-kept sizes location s l h =
    rw
      (store_token-kept 1024 (sizes location) (length s) (scan_value s) (scan_value-Within s)
        (omega (arith, h)))
      (ground (
        arith,
        length-append location (kept (sizes location) (scan_value s) ++ codes "\n"),
        length-append (kept (sizes location) (scan_value s)) (codes "\n"),
        length-kept (sizes location) (length s) (scan_value s) (scan_value-Within s),
      ))

parse_item-value :
    (sizes : Bytes → ℕ) (d : HttpData) (location : Bytes)
    → length location ≤ 10
    → IsSmall d
    → parse_item sizes d location ≡ done (item sizes d.recvdatabuf location)
unfolding parse_item item
parse_item-value sizes d location l h = elim (Option-cases (strstr d.recvdatabuf location)) [
  | inl e ↦ rw (e, parse_item)
  | inr (p, e) ↦
      rw (e, parse_item)
        (read_value-kept sizes location p l
          (omega (arith, rw e at (strstr-Within d.recvdatabuf location))))
]

-- The five items that an authorisation query may hold.
pub record Items : Type 0 where
  pub project : Bytes
  pub vendor : Bytes
  pub stb : Bytes
  pub chip : Bytes
  pub mac : Bytes

abbrev pub items : (Bytes → ℕ) → Bytes → Items
items sizes recv = record {
  project = item sizes recv (codes "ProjectID=");
  vendor = item sizes recv (codes "VendorID=");
  stb = item sizes recv (codes "STBID=");
  chip = item sizes recv (codes "ChipID=");
  mac = item sizes recv (codes "MAC=");
}

-- What the protocol asks of the items.
pub record IsAccepted (i : Items) : Type 0 where
  pub project_given : 0 < length i.project
  pub project_fits : length i.project ≤ 8
  pub vendor_given : 0 < length i.vendor
  pub vendor_fits : length i.vendor ≤ 8
  pub stb_fits : length i.stb ≤ 32
  pub chip_fits : length i.chip ≤ 32
  pub mac_whole : (length i.mac ≡ 12) ⊎ (length i.mac ≡ 0)

-- The object after each piece of the parser, given the items.
after_mac : Items → HttpData → HttpData
after_mac i d =
    if not (length i.mac == 12) && not (length i.mac == 0)
    then refuse d k_mac_len_is_wrong
    else choose_flag (record d { macaddr = i.mac })

after_chip_id : Items → HttpData → HttpData
unfolding after_mac
after_chip_id i d =
    if ltb 32 (length i.chip)
    then refuse d k_chip_id_too_long
    else after_mac i (record d { chipid = i.chip })

after_stbid : Items → HttpData → HttpData
unfolding after_chip_id
after_stbid i d =
    if ltb 32 (length i.stb)
    then refuse d k_stbid_too_long
    else after_chip_id i (record d { stbid = i.stb })

after_vendor_id : Items → HttpData → HttpData
unfolding after_stbid
after_vendor_id i d =
    if ltb 8 (length i.vendor)
    then refuse d k_vendor_id_too_long
    else if length i.vendor == 0
    then refuse (record d { vendorid = i.vendor }) k_no_vendor_id
    else after_stbid i (record d { vendorid = i.vendor })

unfoldable pub after_query_auth : Items → HttpData → HttpData
unfolding after_vendor_id choose_flag
after_query_auth i d =
    if ltb 8 (length i.project)
    then refuse d k_project_id_too_long
    else if length i.project == 0
    then refuse (record d { projectid = i.project }) k_no_project_id
    else after_vendor_id i (record d { projectid = i.project })

module _ (sizes : Bytes → ℕ) where
  parse_mac-after :
      (d : HttpData)
      → IsSmall d
      → parse_mac sizes d ≡ done (after_mac (items sizes d.recvdatabuf) d)
  unfolding parse_mac after_mac
  parse_mac-after d h =
      rw (parse_item-value sizes d (codes "MAC=") (omega arith) h)
        (ground (arith, strncpy_s-done 13 (item sizes d.recvdatabuf (codes "MAC="))))

  parse_chip_id-after :
      (d : HttpData)
      → IsSmall d
      → parse_chip_id sizes d ≡ done (after_chip_id (items sizes d.recvdatabuf) d)
  unfolding parse_chip_id after_chip_id
  parse_chip_id-after d h = rw (parse_item-value sizes d (codes "ChipID=") (omega arith) h) (
      ground (
        arith,
        strncpy_s-done 33 (item sizes d.recvdatabuf (codes "ChipID=")),
        parse_mac-after (record d { chipid = item sizes d.recvdatabuf (codes "ChipID=") }) h,
      ))

  parse_stbid-after :
      (d : HttpData)
      → IsSmall d
      → parse_stbid sizes d ≡ done (after_stbid (items sizes d.recvdatabuf) d)
  unfolding parse_stbid after_stbid
  parse_stbid-after d h = rw (parse_item-value sizes d (codes "STBID=") (omega arith) h) (
      ground (
        arith,
        strncpy_s-done 33 (item sizes d.recvdatabuf (codes "STBID=")),
        parse_chip_id-after (record d { stbid = item sizes d.recvdatabuf (codes "STBID=") }) h,
      ))

  parse_vendor_id-after :
      (d : HttpData)
      → IsSmall d
      → parse_vendor_id sizes d ≡ done (after_vendor_id (items sizes d.recvdatabuf) d)
  unfolding parse_vendor_id after_vendor_id
  parse_vendor_id-after d h = rw (parse_item-value sizes d (codes "VendorID=") (omega arith) h) (
      ground (
        arith,
        strncpy_s-done 9 (item sizes d.recvdatabuf (codes "VendorID=")),
        parse_stbid-after (record d { vendorid = item sizes d.recvdatabuf (codes "VendorID=") }) h,
      ))

  pub parse_query_auth-after :
      (d : HttpData)
      → IsSmall d
      → parse_query_auth sizes d ≡ done (after_query_auth (items sizes d.recvdatabuf) d)
  unfolding parse_query_auth after_query_auth
  parse_query_auth-after d h = rw (parse_item-value sizes d (codes "ProjectID=") (omega arith) h) (
      ground (
        arith,
        strncpy_s-done 9 (item sizes d.recvdatabuf (codes "ProjectID=")),
        parse_vendor_id-after
            (record d { projectid = item sizes d.recvdatabuf (codes "ProjectID=") }) h,
      ))
