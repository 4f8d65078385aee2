-- ===== src/HttpData/Protocol.antt =====
-- The protocol of `HttpData` as a relation between the received text and the reply.

use amsserver.HttpData.Auth.{IsDue}
use amsserver.Crt.Scan.{scan_value}
use amsserver.Crt.Text.{same_start}
use amsserver.HttpData.Items.{kept, Items, IsSmall, IsAccepted, items}
use amsserver.HttpData.State.{
  Errorcode, HttpData, k_null_flag, k_null_error, k_chip_id_too_long, k_stbid_too_long,
  k_query_number_undefine, k_query_len_is_wrong, k_vendor_id_too_long, k_vendor_id_is_wrong,
  k_project_id_too_long, k_mac_len_is_wrong, k_project_id_is_wrong, k_no_vendor_id, k_no_project_id,
  k_no_field,
}
use amsserver.Base.{ℕ, ◌≡◌, Bytes, codes, length, ◌<◌, Bool, [], true, ◌⊎◌, ◌≢◌, ◌++◌, false}

-- The text of an error in the reply.
abbrev pub error_text : Errorcode → Bytes
error_text k_no_field = codes "NoField"
error_text k_query_len_is_wrong = codes "QueryLenIsWrong"
error_text k_query_number_undefine = codes "QueryNumberUndefine"
error_text k_no_project_id = codes "NoProjectID"
error_text k_project_id_is_wrong = codes "ProjectIDIsWrong"
error_text k_no_vendor_id = codes "NoVendorID"
error_text k_vendor_id_is_wrong = codes "VendorIDIsWrong"
error_text k_project_id_too_long = codes "ProjectIDTooLong"
error_text k_vendor_id_too_long = codes "VendorIDTooLong"
error_text k_stbid_too_long = codes "STBIDTooLong"
error_text k_chip_id_too_long = codes "ChipIDTooLong"
error_text k_mac_len_is_wrong = codes "MACLenIsWrong"
error_text k_null_error = []

-- The value behind "Query=", as the scan leaves it.
abbrev pub query_type : (Bytes → ℕ) → Bytes → Bytes
query_type sizes recv = kept (sizes (codes "Query=")) (scan_value recv)

abbrev pub IsQuery : Bytes → Type 0
IsQuery recv = same_start 6 recv (codes "Query=") ≡ true

abbrev pub IsActivate : Bytes → Type 0
IsActivate recv = same_start 9 recv (codes "Activate=") ≡ true

-- A request for the authorisation: "Query=0".
abbrev pub IsAuth : (Bytes → ℕ) → Bytes → Type 0
IsAuth sizes recv = IsQuery recv × (query_type sizes recv ≡ codes "0")

abbrev pub IsEmpty : Bytes → Type 0
IsEmpty t = length t ≡ 0

abbrev pub IsNonempty : Bytes → Type 0
IsNonempty t = 0 < length t

-- The requests that the program does not answer: "Query=1" and "Activate=".
abbrev pub IsSilent : (Bytes → ℕ) → Bytes → Type 0
IsSilent sizes recv =
    (IsQuery recv × (query_type sizes recv ≡ codes "1")) ⊎ ((¬ IsQuery recv) × IsActivate recv)

-- The reply with a payload, for a request with these items.
pub data Payload (sizes : Bytes → ℕ) (recv : Bytes) (i : Items) (payload : Bytes) : Type 0 where
  sum :
      IsAuth sizes recv
      → IsAccepted i
      → IsEmpty i.stb
      → IsEmpty i.chip
      → IsEmpty i.mac
      → payload ≡ codes "AuthSum=0"
      → Payload sizes recv i payload
  by_stbid :
      IsAuth sizes recv
      → IsAccepted i
      → IsNonempty i.stb
      → payload ≡ codes "AuthState=StbId"
      → Payload sizes recv i payload
  by_chip_id :
      IsAuth sizes recv
      → IsAccepted i
      → IsEmpty i.stb
      → IsNonempty i.chip
      → payload ≡ codes "AuthState=ChipId"
      → Payload sizes recv i payload
  by_mac :
      IsAuth sizes recv
      → IsAccepted i
      → IsEmpty i.stb
      → IsEmpty i.chip
      → IsNonempty i.mac
      → payload ≡ codes "AuthState=Mac"
      → Payload sizes recv i payload
  auth_error :
      (code : Errorcode)
      → IsAuth sizes recv
      → IsDue code i
      → payload ≡ codes "ErrorCode=" ++ error_text code
      → Payload sizes recv i payload
  query_length :
      IsQuery recv
      → length (query_type sizes recv) ≢ 1
      → payload ≡ codes "ErrorCode=QueryLenIsWrong"
      → Payload sizes recv i payload
  query_number :
      IsQuery recv
      → length (query_type sizes recv) ≡ 1
      → query_type sizes recv ≢ codes "0"
      → query_type sizes recv ≢ codes "1"
      → payload ≡ codes "ErrorCode=QueryNumberUndefine"
      → Payload sizes recv i payload
  no_field :
      (¬ IsQuery recv)
      → (¬ IsActivate recv)
      → payload ≡ codes "ErrorCode=NoField"
      → Payload sizes recv i payload

-- What the handler returns: no payload and FALSE for a silent request, else a payload and TRUE.
pub data Reply (sizes : Bytes → ℕ) (recv : Bytes) (r : HttpData × Bool) : Type 0 where
  answered : r.1 ≡ true → Payload sizes recv (items sizes recv) r.0.payloadbuf → Reply sizes recv r
  silent : IsSilent sizes recv → r.1 ≡ false → r.0.payloadbuf ≡ [] → Reply sizes recv r

-- What the constructor leaves.
pub record IsFresh (d : HttpData) : Type 0 where
  pub small : IsSmall d
  pub no_payload : d.payloadbuf ≡ []
  pub no_flag : d.sendflag ≡ k_null_flag
