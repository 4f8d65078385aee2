-- ===== src/HttpData/Unique.antt =====
-- The protocol determines the reply: each request falls under one rule.
use amsserver.Crt.Equality.{equal_iff}
use amsserver.Crt.Text.{same_start, equal}
use amsserver.HttpData.Auth.{IsDue}
use amsserver.HttpData.Items.{Items, IsAccepted, items}
use amsserver.HttpData.State.{
  k_vendor_id_too_long, k_mac_len_is_wrong, k_null_error, k_chip_id_too_long, k_project_id_too_long,
  k_stbid_too_long, k_no_vendor_id, k_no_project_id, k_no_field, Errorcode, HttpData,
}
use amsserver.Base.{
  refl, ◌≡◌, [], true, false, inl, inr, Bool, Bytes, if◌then◌else◌, ℕ, ltb, arith, length, codes,
  ◌==◌, ◌++◌, sym, not, ◌∙◌, ◌&&◌, ap, ◌<◌,
}
use amsserver.HttpData.Protocol.{
  Payload, Reply, query_type, IsAuth, sum, answered, error_text, by_stbid, silent, by_chip_id,
  by_mac, auth_error, query_length, query_number, no_field, IsQuery, IsActivate,
}

-- The error of the first requirement that is broken.
first_error : Items → Errorcode
first_error i =
    if ltb 8 (length i.project)
    then k_project_id_too_long
    else if length i.project == 0
    then k_no_project_id
    else if ltb 8 (length i.vendor)
    then k_vendor_id_too_long
    else if length i.vendor == 0
    then k_no_vendor_id
    else if ltb 32 (length i.stb)
    then k_stbid_too_long
    else if ltb 32 (length i.chip)
    then k_chip_id_too_long
    else if not (length i.mac == 12) && not (length i.mac == 0)
    then k_mac_len_is_wrong
    else k_null_error

IsDue-first : (c : Errorcode) (i : Items) → IsDue c i → first_error i ≡ c
unfolding first_error
IsDue-first k_null_error i due = absurd due
IsDue-first k_no_field i due = absurd due
IsDue-first _ i due = ground arith

IsAccepted-first : (i : Items) → IsAccepted i → first_error i ≡ k_null_error
unfolding first_error
IsAccepted-first i v = ground arith

auth_text : Items → Errorcode → Bytes
auth_text i k_null_error =
    if length i.stb == 0
    then (if length i.chip == 0
        then (if length i.mac == 0 then codes "AuthSum=0" else codes "AuthState=Mac")
        else codes "AuthState=ChipId")
    else codes "AuthState=StbId"
auth_text i c = codes "ErrorCode=" ++ error_text c

IsDue-text :
    (c : Errorcode) (i : Items) → IsDue c i → auth_text i c ≡ codes "ErrorCode=" ++ error_text c
unfolding auth_text
IsDue-text k_null_error i due = absurd due
IsDue-text k_no_field i due = absurd due
IsDue-text _ i due = refl

-- The one reply: whether there is a payload, and which.
determined : (query activate : Bool) → Bytes → Items → Bool × Bytes
determined query activate t i =
    if query
    then (if length t == 1
        then (if equal t (codes "0")
            then (true, auth_text i (first_error i))
            else if equal t (codes "1")
            then (false, [])
            else (true, codes "ErrorCode=QueryNumberUndefine"))
        else (true, codes "ErrorCode=QueryLenIsWrong"))
    else if activate
    then (false, [])
    else (true, codes "ErrorCode=NoField")

module _ (i : Items) (v : IsAccepted i) where
  text_sum :
      length i.stb ≡ 0
      → length i.chip ≡ 0
      → length i.mac ≡ 0
      → auth_text i (first_error i) ≡ codes "AuthSum=0"
  unfolding auth_text
  text_sum b c m = rw (IsAccepted-first i v) (ground arith)

  text_stbid : 0 < length i.stb → auth_text i (first_error i) ≡ codes "AuthState=StbId"
  unfolding auth_text
  text_stbid b = rw (IsAccepted-first i v) (ground arith)

  text_chip_id :
      length i.stb ≡ 0 → 0 < length i.chip → auth_text i (first_error i) ≡ codes "AuthState=ChipId"
  unfolding auth_text
  text_chip_id b c = rw (IsAccepted-first i v) (ground arith)

  text_mac :
      length i.stb ≡ 0
      → length i.chip ≡ 0
      → 0 < length i.mac
      → auth_text i (first_error i) ≡ codes "AuthState=Mac"
  unfolding auth_text
  text_mac b c m = rw (IsAccepted-first i v) (ground arith)

module _ (sizes : Bytes → ℕ) (s : Bytes) where
  verdict : Bool × Bytes
  verdict =
      determined (same_start 6 s (codes "Query=")) (same_start 9 s (codes "Activate="))
        (query_type sizes s) (items sizes s)

  auth_verdict :
      (text : Bytes)
      → IsAuth sizes s
      → auth_text (items sizes s) (first_error (items sizes s)) ≡ text
      → verdict ≡ (true, text)
  unfolding verdict determined equal
  auth_verdict text (q, z) e = rw (q, z, e) refl

  Payload-verdict : (text : Bytes) → Payload sizes s (items sizes s) text → verdict ≡ (true, text)
  unfolding verdict determined
  Payload-verdict text (sum a v b c m e) = auth_verdict text a (text_sum _ v b c m ∙ sym e)
  Payload-verdict text (by_stbid a v b e) = auth_verdict text a (text_stbid _ v b ∙ sym e)
  Payload-verdict text (by_chip_id a v b c e) = auth_verdict text a (text_chip_id _ v b c ∙ sym e)
  Payload-verdict text (by_mac a v b c m e) = auth_verdict text a (text_mac _ v b c m ∙ sym e)
  Payload-verdict text (auth_error c a due e) =
      auth_verdict text a
        (rw (IsDue-first c (items sizes s) due) (IsDue-text c (items sizes s) due ∙ sym e))
  Payload-verdict text (query_length q l e) = ground arith
  Payload-verdict text (query_number q l z o e) = ground (
    arith,
    equal_iff (query_type sizes s) (codes "0"),
    equal_iff (query_type sizes s) (codes "1"),
  )
  Payload-verdict text (no_field q a e) = ground arith

  silent_type : IsQuery s → query_type sizes s ≡ codes "1" → verdict ≡ (false, [])
  unfolding verdict determined equal
  silent_type q o = rw (q, o)

  silent_activate : (¬ IsQuery s) → IsActivate s → verdict ≡ (false, [])
  unfolding verdict determined
  silent_activate q a = ground arith

  Reply-verdict : (r : HttpData × Bool) → Reply sizes s r → verdict ≡ (r.1, r.0.payloadbuf)
  Reply-verdict r (answered e p) = rw e (Payload-verdict r.0.payloadbuf p)
  Reply-verdict r (silent (inl (q, o)) e p) = rw (e, p) (silent_type q o)
  Reply-verdict r (silent (inr (q, a)) e p) = rw (e, p) (silent_activate q a)

-- A text has one reply: the protocol never allows two payloads, nor a payload and silence.
pub Reply-unique :
    (sizes : Bytes → ℕ) (s : Bytes) (r q : HttpData × Bool)
    → Reply sizes s r
    → Reply sizes s q
    → (r.1 ≡ q.1) × (r.0.payloadbuf ≡ q.0.payloadbuf)
Reply-unique sizes s r q a b =
    let e = sym (Reply-verdict sizes s r a) ∙ Reply-verdict sizes s q b in
    (ap (λ p. p.0) e, ap (λ p. p.1) e)
