-- ===== src/Crt/Scan.antt =====
-- sscanf_s with the two formats of the program. Microsoft's sscanf_s reads a buffer size behind
-- each `%[` or `%s` buffer; the program passes none, so the size it reads is an argument here.
-- A token that does not fit in that size is not written.
use amsserver.Base.{
  ℕ, Bool, ◌&&◌, ◌||◌, [], ◌∷◌, Option, none, some, leb, ◌==◌, if◌then◌else◌, length, Bytes,
  Outcome, done, crash, overrun,
}

-- The bytes before the first `c`, and those from it on.
unfoldable pub before : ℕ → Bytes → Bytes
before c [] = []
before c (x ∷ xs) = if x == c then [] else x ∷ before c xs

unfoldable pub since : ℕ → Bytes → Bytes
since c [] = []
since c (x ∷ xs) = if x == c then x ∷ xs else since c xs

-- A conversion matches one byte at least.
unfoldable pub matched : Bytes → Option Bytes
matched [] = none
matched (x ∷ xs) = some (x ∷ xs)

-- `%*[^=]=%[^&]`, given what stands before the first '=' and from it on.
unfoldable pub after_equals : Bytes → Bytes → Option Bytes
unfolding before matched
after_equals [] rest = none
after_equals (x ∷ xs) [] = none
after_equals (x ∷ xs) (e ∷ rest) = matched (before b'&' rest)

unfoldable pub scan_value : Bytes → Option Bytes
unfolding before since after_equals
scan_value source = after_equals (before b'=' source) (since b'=' source)

unfoldable pub is_space : ℕ → Bool
is_space c = c == 32 || (leb 9 c && leb c 13)

unfoldable pub skip_space : Bytes → Bytes
unfolding is_space
skip_space [] = []
skip_space (x ∷ xs) = if is_space x then skip_space xs else x ∷ xs

unfoldable pub word : Bytes → Bytes
unfolding is_space
word [] = []
word (x ∷ xs) = if is_space x then [] else x ∷ word xs

-- `%*[^?]?%s`
unfoldable pub after_question : Bytes → Bytes → Option Bytes
unfolding matched skip_space word
after_question [] rest = none
after_question (x ∷ xs) [] = none
after_question (x ∷ xs) (q ∷ rest) = matched (word (skip_space rest))

unfoldable pub scan_query : Bytes → Option Bytes
unfolding before since after_question
scan_query source = after_question (before b'?' source) (since b'?' source)

-- What the call leaves in a buffer of `capacity` bytes that holds `old`.
unfoldable pub store_token : ℕ → ℕ → Bytes → Option Bytes → Outcome Bytes
store_token capacity size old none = done old
store_token capacity size old (some token) =
    if leb size (length token)
    then done old
    else if leb capacity (length token)
    then crash overrun
    else done token
