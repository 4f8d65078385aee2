-- ===== src/Server/Response/Text.antt =====
-- The response as a text: a status line, two headers, and the payload with its length.
use amsserver.Crt.Bounds.{length-decimal}
use amsserver.Io.Buffer.{PerIoData}
use amsserver.Server.Http.{content_length, derive_build_send}
use amsserver.HttpData.Protocol.{
  Payload, error_text, sum, by_stbid, by_chip_id, by_mac, auth_error, query_length, query_number,
  no_field,
}
use amsserver.HttpData.Auth.{IsDue}
use amsserver.HttpData.Items.{Items}
use amsserver.Io.Texts.{IsText, IsClean, IsText-append, append_text-clean}
use amsserver.Crt.Number.{digits_onto, decimal}
use amsserver.HttpData.State.{k_no_field, k_null_error, Errorcode}
use amsserver.Base.{
  ◌∷◌, [], zero, suc, inl, inr, done, Bytes, codes, ◌++◌, ℕ, length, Bool-cases, ltb, ◌≤◌, arith,
  ◌/◌, ◌+◌, ◌%◌, true, ◌<◌, ◌≡◌, length-append, ◌∙◌, ap, append_assoc,
}
use amsserver.Server.Response.{append_body}

abbrev pub status_text : Bytes
status_text = codes "HTTP/1.1 200 OK\r\nContent-Type: text/html\r\n"

abbrev pub response : Bytes → Bytes
response payload =
    status_text
    ++ (codes "Content-Length: " ++ (decimal (length payload) ++ (codes "\r\n\r\n" ++ payload)))

-- The digits of a number are no NUL.
digits_onto-IsText : (rounds n : ℕ) (acc : Bytes) → IsText acc → IsText (digits_onto rounds n acc)
unfolding digits_onto
digits_onto-IsText zero n acc t = t
digits_onto-IsText (suc r) n acc t = elim (Bool-cases (ltb n 10)) [
  | inl e ↦ rw e (omega arith, t)
  | inr e ↦ rw e (digits_onto-IsText r (n / 10) ((48 + n % 10) ∷ acc) (omega arith, t))
]

decimal-IsText : (n : ℕ) → IsText (decimal n)
unfolding decimal
decimal-IsText n = digits_onto-IsText (suc n) n [] tt

-- A payload that the protocol allows is a short text.
pub record IsShort (p : Bytes) : Type 0 where
  pub text : IsText p
  pub short : length p ≤ 40

IsDue-IsShort :
    (c : Errorcode) (i : Items) → IsDue c i → IsShort (codes "ErrorCode=" ++ error_text c)
IsDue-IsShort k_null_error i due = absurd due
IsDue-IsShort k_no_field i due = absurd due
IsDue-IsShort _ i due = omega arith

pub Payload-IsShort :
    (sizes : Bytes → ℕ) (recv : Bytes) (i : Items) (p : Bytes) → Payload sizes recv i p → IsShort p
Payload-IsShort sizes recv i p (sum a v b c m e) = rw e (omega arith)
Payload-IsShort sizes recv i p (by_stbid a v b e) = rw e (omega arith)
Payload-IsShort sizes recv i p (by_chip_id a v b c e) = rw e (omega arith)
Payload-IsShort sizes recv i p (by_mac a v b c m e) = rw e (omega arith)
Payload-IsShort sizes recv i p (auth_error c a due e) = rw e (IsDue-IsShort c i due)
Payload-IsShort sizes recv i p (query_length q l e) = rw e (omega arith)
Payload-IsShort sizes recv i p (query_number q l z o e) = rw e (omega arith)
Payload-IsShort sizes recv i p (no_field q a e) = rw e (omega arith)

-- The header with the length.
unfoldable pub length_text : ℕ → Bytes
length_text n = codes "Content-Length: " ++ decimal n

content_length-done : (n : ℕ) → n < 10000 → content_length n ≡ done (length_text n)
unfolding content_length length_text
content_length-done n h = ground (arith, length-decimal 3 n h)

length-length_text : (n : ℕ) → n < 10000 → length (length_text n) ≤ 20
unfolding length_text
length-length_text n h = omega (arith, length-decimal 3 n h)

length_text-IsText : (n : ℕ) → IsText (length_text n)
unfolding length_text
length_text-IsText n =
    IsText-append (codes "Content-Length: ") (decimal n) (omega arith) (decimal-IsText n)

-- A clean buffer stays clean, and grows by the text.
append-IsClean :
    (d : PerIoData) (t : Bytes) → IsClean d → IsText t → IsClean (record d { buf = d.buf ++ t })
append-IsClean d t c h = record { text = IsText-append d.buf t c.text h; room = c.room }

module _ (d : PerIoData) (p : Bytes) (c : IsClean d) (s : IsShort p) (h : length d.buf ≤ 100) where
  lengthed : PerIoData
  lengthed = record d { buf = d.buf ++ length_text (length p) }

  blank : PerIoData
  blank = record lengthed { buf = lengthed.buf ++ codes "\r\n\r\n" }

  lengthed-IsClean : IsClean lengthed
  unfolding lengthed
  lengthed-IsClean = append-IsClean d (length_text (length p)) c (length_text-IsText (length p))

  length-lengthed : length lengthed.buf ≤ 120
  unfolding lengthed
  length-lengthed = omega (
    arith,
    length-append d.buf (length_text (length p)),
    length-length_text (length p) (omega (arith, s.short)),
  )

  blank-IsClean : IsClean blank
  unfolding blank
  blank-IsClean = append-IsClean lengthed (codes "\r\n\r\n") lengthed-IsClean (omega arith)

  length-blank : length blank.buf ≤ 124
  unfolding blank
  length-blank = omega (arith, length-append lengthed.buf (codes "\r\n\r\n"), length-lengthed)

  append_body-blank : append_body d p ≡ done (record blank { buf = blank.buf ++ p }, true)
  unfolding append_body derive_build_send
  append_body-blank = rw (content_length-done (length p) (omega (arith, s.short))) (
      rw
        (append_text-clean d (length_text (length p)) c
          (omega (arith, length-length_text (length p) (omega (arith, s.short)))))
        (unfold lengthed blank in
          rw
            (append_text-clean lengthed (codes "\r\n\r\n") lengthed-IsClean
              (omega (arith, length-lengthed)))
            (rw (append_text-clean blank p blank-IsClean (omega (arith, length-blank, s.short))))))

  pub append_body-text :
      append_body d p
      ≡ done (record d { buf = d.buf ++ (length_text (length p) ++ (codes "\r\n\r\n" ++ p)) }, true)
  unfolding blank lengthed
  append_body-text =
      append_body-blank
      ∙ ap (λ b. done (record d { buf = b }, true))
          (append_assoc (d.buf ++ length_text (length p)) (codes "\r\n\r\n") p
            ∙ append_assoc d.buf (length_text (length p)) (codes "\r\n\r\n" ++ p))

pub response-IsText : (p : Bytes) → IsShort p → IsText (response p)
response-IsText p s =
    IsText-append status_text
      (codes "Content-Length: " ++ (decimal (length p) ++ (codes "\r\n\r\n" ++ p))) (omega arith)
      (IsText-append (codes "Content-Length: ") (decimal (length p) ++ (codes "\r\n\r\n" ++ p))
        (omega arith)
        (IsText-append (decimal (length p)) (codes "\r\n\r\n" ++ p) (decimal-IsText (length p))
          (IsText-append (codes "\r\n\r\n") p (omega arith) s.text)))

pub length-response : (p : Bytes) → IsShort p → length (response p) ≤ 130
length-response p s = omega (
  arith,
  length-append (decimal (length p)) (codes "\r\n\r\n" ++ p),
  length-decimal 3 (length p) (omega (arith, s.short)),
  s.short,
)
