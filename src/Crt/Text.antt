-- ===== src/Crt/Text.antt =====
-- strcmp, _strnicmp, strstr, strcat_s, strncpy_s, and sprintf_s of one text in quotes.
use amsserver.Base.{
  ℕ, zero, suc, ◌+◌, Bool, true, false, ◌&&◌, [], ◌∷◌, ◌++◌, Option, none, some, leb, ◌==◌,
  if◌then◌else◌, length, take, Bytes, Outcome, done, crash, invalid_parameter, overrun,
}

-- `0 == strcmp(a, b)`
unfoldable pub equal : Bytes → Bytes → Bool
equal (c ∷ left) (d ∷ right) = c == d && equal left right
equal [] [] = true
equal _ _ = false

unfoldable pub to_lower : ℕ → ℕ
to_lower c = if leb b'A' c && leb c b'Z' then c + 32 else c

-- `0 == _strnicmp(a, b, n)`
unfoldable pub same_start : ℕ → Bytes → Bytes → Bool
unfolding to_lower
same_start zero a b = true
same_start (suc n) [] [] = true
same_start (suc n) (x ∷ a) (y ∷ b) = to_lower x == to_lower y && same_start n a b
same_start (suc n) _ _ = false

unfoldable pub starts_with : Bytes → Bytes → Bool
starts_with [] text = true
starts_with (k ∷ key) [] = false
starts_with (k ∷ key) (c ∷ text) = k == c && starts_with key text

-- `strstr`: the text from the first occurrence of the key on.
unfoldable pub strstr : Bytes → Bytes → Option Bytes
unfolding starts_with
strstr [] key = if starts_with key [] then some [] else none
strstr (c ∷ text) key = if starts_with key (c ∷ text) then some (c ∷ text) else strstr text key

-- `strcat_s(text, size, more)` on a buffer of `capacity` bytes. The library trusts `size`.
unfoldable pub strcat_s : ℕ → ℕ → Bytes → Bytes → Outcome Bytes
strcat_s capacity size text more =
    if leb size (length text + length more)
    then crash invalid_parameter
    else if leb capacity (length text + length more)
    then crash overrun
    else done (text ++ more)

-- `strncpy_s(buffer, size, source, count)` on a buffer of `size` bytes.
unfoldable pub strncpy_s : ℕ → Bytes → ℕ → Outcome Bytes
strncpy_s size source count =
    if leb size (length (take count source))
    then crash invalid_parameter
    else done (take count source)

-- `sprintf_s(buffer, size, "\"%s\"", text)` on a buffer of `size` bytes.
unfoldable pub sprintf_quoted : ℕ → Bytes → Outcome Bytes
sprintf_quoted size text =
    if leb size (length text + 2)
    then crash invalid_parameter
    else done (b'"' ∷ (text ++ b'"' ∷ []))
