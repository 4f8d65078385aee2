-- ===== src/HttpData/Parse.antt =====
-- `ParseRecvBuf` and what it calls. `sizes` gives the buffer size that sscanf_s reads at the call
-- for each item, since the program passes none.
use amsserver.Log.{ams_dbug_log}
use amsserver.Base.{
  ℕ, ◌+◌, ltb, [], none, some, not, ◌&&◌, ◌==◌, if◌then◌else◌, length, Bytes, codes, Outcome, ◌>>=◌,
  done, ◌++◌,
}
use amsserver.Crt.Text.{equal, same_start, strstr, strncpy_s}
use amsserver.Crt.Scan.{scan_value, store_token}
use amsserver.HttpData.State.{
  HttpData, refuse, recv_buffer_length, projectid_length, vendorid_length, stbid_length,
  chipid_length, mac_length, k_query_auth_sum, k_query_auth_state, k_no_field, k_query_len_is_wrong,
  k_query_number_undefine, k_no_project_id, k_no_vendor_id, k_project_id_too_long,
  k_vendor_id_too_long, k_stbid_too_long, k_chip_id_too_long, k_mac_len_is_wrong,
}

-- sscanf_s into a cleared buffer of `recv_buffer_length` bytes, and the line of the log for the value.
unfoldable pub read_value : (Bytes → ℕ) → Bytes → Bytes → Outcome Bytes
read_value sizes location bufpointer = do
  itemvalue ← store_token recv_buffer_length (sizes location) [] (scan_value bufpointer)
  _ ← ams_dbug_log (location ++ (itemvalue ++ codes "\n"))
  done itemvalue

-- `ParseItem`
unfoldable pub parse_item : (Bytes → ℕ) → HttpData → Bytes → Outcome Bytes
unfolding read_value
parse_item sizes d location = elim (strstr d.recvdatabuf location) [
  | none ↦ done []
  | some bufpointer ↦ read_value sizes location bufpointer
]

-- `ParseQueryAuth`, from its end: each piece goes on with the next one.
unfoldable pub choose_flag : HttpData → HttpData
choose_flag d =
    if length d.stbid == 0 && (length d.chipid == 0 && length d.macaddr == 0)
    then record d { sendflag = k_query_auth_sum }
    else record d { sendflag = k_query_auth_state }

unfoldable pub parse_mac : (Bytes → ℕ) → HttpData → Outcome HttpData
unfolding choose_flag
parse_mac sizes d = do
  tmp ← parse_item sizes d (codes "MAC=")
  if not (length tmp == 12) && not (length tmp == 0) then done (refuse d k_mac_len_is_wrong) else do
    macaddr ← strncpy_s (mac_length + 1) tmp (length tmp)
    done (choose_flag (record d { macaddr = macaddr }))

unfoldable pub parse_chip_id : (Bytes → ℕ) → HttpData → Outcome HttpData
parse_chip_id sizes d = do
  tmp ← parse_item sizes d (codes "ChipID=")
  if ltb 32 (length tmp) then done (refuse d k_chip_id_too_long) else do
    chipid ← strncpy_s (chipid_length + 1) tmp (length tmp)
    parse_mac sizes (record d { chipid = chipid })

unfoldable pub parse_stbid : (Bytes → ℕ) → HttpData → Outcome HttpData
parse_stbid sizes d = do
  tmp ← parse_item sizes d (codes "STBID=")
  if ltb 32 (length tmp) then done (refuse d k_stbid_too_long) else do
    stbid ← strncpy_s (stbid_length + 1) tmp (length tmp)
    parse_chip_id sizes (record d { stbid = stbid })

unfoldable pub parse_vendor_id : (Bytes → ℕ) → HttpData → Outcome HttpData
parse_vendor_id sizes d = do
  tmp ← parse_item sizes d (codes "VendorID=")
  if ltb 8 (length tmp) then done (refuse d k_vendor_id_too_long) else do
    vendorid ← strncpy_s (vendorid_length + 1) tmp (length tmp)
    if length vendorid == 0
        then done (refuse (record d { vendorid = vendorid }) k_no_vendor_id)
        else parse_stbid sizes (record d { vendorid = vendorid })

unfoldable pub parse_query_auth : (Bytes → ℕ) → HttpData → Outcome HttpData
parse_query_auth sizes d = do
  tmp ← parse_item sizes d (codes "ProjectID=")
  if ltb 8 (length tmp) then done (refuse d k_project_id_too_long) else do
    projectid ← strncpy_s (projectid_length + 1) tmp (length tmp)
    if length projectid == 0
        then done (refuse (record d { projectid = projectid }) k_no_project_id)
        else parse_vendor_id sizes (record d { projectid = projectid })

-- Both bodies are empty in the source.
unfoldable pub parse_query_activate : HttpData → HttpData
parse_query_activate d = d

unfoldable pub parse_activate : HttpData → HttpData
parse_activate d = d

-- The dispatch of `ParseQuery` on the text behind "Query=".
unfoldable pub parse_query_type : (Bytes → ℕ) → HttpData → Bytes → Outcome HttpData
unfolding parse_query_activate
parse_query_type sizes d querytype =
    if not (length querytype == 1)
    then done (refuse d k_query_len_is_wrong)
    else if equal querytype (codes "0")
    then parse_query_auth sizes d
    else if equal querytype (codes "1")
    then done (parse_query_activate d)
    else done (refuse d k_query_number_undefine)

unfoldable pub parse_query : (Bytes → ℕ) → HttpData → Outcome HttpData
unfolding read_value
parse_query sizes d = do
  querytype ← read_value sizes (codes "Query=") d.recvdatabuf
  parse_query_type sizes d querytype

unfoldable pub parse_recv_buf : (Bytes → ℕ) → HttpData → Outcome HttpData
unfolding parse_activate
parse_recv_buf sizes d =
    if same_start 6 d.recvdatabuf (codes "Query=")
    then parse_query sizes d
    else if same_start 9 d.recvdatabuf (codes "Activate=")
    then done (parse_activate d)
    else done (refuse d k_no_field)
