-- ===== src/HttpData/State.antt =====
-- The class's enumerations, its members, its constructor, and the table of error texts.
use amsserver.Base.{
  ℕ, [], ◌∷◌, List, Option, none, some, length, Bytes, codes, Outcome, ◌>>=◌, done,
}
use amsserver.Crt.Text.{strncpy_s}

abbrev pub payload_buffer_length : ℕ
payload_buffer_length = 1024

abbrev pub recv_buffer_length : ℕ
recv_buffer_length = 1024

abbrev pub projectid_length : ℕ
projectid_length = 8

abbrev pub vendorid_length : ℕ
vendorid_length = 8

abbrev pub stbid_length : ℕ
stbid_length = 32

abbrev pub chipid_length : ℕ
chipid_length = 32

abbrev pub mac_length : ℕ
mac_length = 12

pub data SendFlag : Type 0 where
  k_error_flag k_query_auth_state k_query_auth_sum : SendFlag
  k_query_activate_state k_query_activate_sum : SendFlag
  k_activate_succeed k_activate_failed k_null_flag : SendFlag

pub data Errorcode : Type 0 where
  k_no_field k_query_len_is_wrong k_query_number_undefine : Errorcode
  k_no_project_id k_project_id_is_wrong k_no_vendor_id k_vendor_id_is_wrong : Errorcode
  k_project_id_too_long k_vendor_id_too_long k_stbid_too_long k_chip_id_too_long : Errorcode
  k_mac_len_is_wrong k_null_error : Errorcode

-- The enumeration starts at 1.
unfoldable pub error_number : Errorcode → ℕ
error_number k_no_field = 1
error_number k_query_len_is_wrong = 2
error_number k_query_number_undefine = 3
error_number k_no_project_id = 4
error_number k_project_id_is_wrong = 5
error_number k_no_vendor_id = 6
error_number k_vendor_id_is_wrong = 7
error_number k_project_id_too_long = 8
error_number k_vendor_id_too_long = 9
error_number k_stbid_too_long = 10
error_number k_chip_id_too_long = 11
error_number k_mac_len_is_wrong = 12
error_number k_null_error = 13

-- `none` is the table's NULL.
abbrev pub error_context : List (Option Bytes)
error_context =
    none
    ∷ some (codes "NoField")
    ∷ some (codes "QueryLenIsWrong")
    ∷ some (codes "QueryNumberUndefine")
    ∷ some (codes "NoProjectID")
    ∷ some (codes "ProjectIDIsWrong")
    ∷ some (codes "NoVendorID")
    ∷ some (codes "VendorIDIsWrong")
    ∷ some (codes "ProjectIDTooLong")
    ∷ some (codes "VendorIDTooLong")
    ∷ some (codes "STBIDTooLong")
    ∷ some (codes "ChipIDTooLong")
    ∷ some (codes "MACLenIsWrong")
    ∷ none
    ∷ []

pub record HttpData : Type 0 where
  pub recvdatabuf : Bytes
  pub payloadbuf : Bytes
  pub sendflag : SendFlag
  pub errorcode : Errorcode
  pub projectid : Bytes
  pub vendorid : Bytes
  pub stbid : Bytes
  pub chipid : Bytes
  pub macaddr : Bytes

-- The constructor. The buffer is cleared before the copy, so the write of the last byte changes
-- nothing.
unfoldable pub new : Bytes → Outcome HttpData
new comedata = do
  recvdatabuf ← strncpy_s recv_buffer_length comedata (length comedata)
  done (record {
    recvdatabuf = recvdatabuf;
    payloadbuf = [];
    sendflag = k_null_flag;
    errorcode = k_null_error;
    projectid = [];
    vendorid = [];
    stbid = [];
    chipid = [];
    macaddr = [];
  })

-- `sendflag = kErrorFlag; errorcode = …;`
abbrev pub refuse : HttpData → Errorcode → HttpData
refuse d code = record d { sendflag = k_error_flag; errorcode = code }
