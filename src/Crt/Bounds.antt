-- ===== src/Crt/Bounds.antt =====
-- How long the results are: what strstr and sscanf_s find is no longer than the text, and what the
-- `_s` functions accept fits.
use amsserver.Base.{
  ℕ, zero, suc, ◌+◌, ◌*◌, ◌/◌, ◌%◌, ◌^◌, ◌≤◌, ◌<◌, ◌≡◌, [], ◌∷◌, ◌++◌, Option, none, some, length,
  take-length, Bytes, done, arith, Bool-cases, inl, inr,
}
use native.Mathlib.Nat.{pow-suc}
use amsserver.Crt.Text.{strstr, starts_with, strcat_s, strncpy_s, sprintf_quoted}
use amsserver.Crt.Scan.{before, since, matched, after_equals, scan_value}
use amsserver.Crt.Number.{digits_onto, decimal}

-- `P` holds of what there is.
abbrev pub All? : (Bytes → Type 0) → Option Bytes → Type 0
All? P none = Unit {0}
All? P (some a) = P a

abbrev pub Within : ℕ → Option Bytes → Type 0
Within n = All? (λ t. length t ≤ n)

Within-mono : {m n : ℕ} (o : Option Bytes) → m ≤ n → Within m o → Within n o
Within-mono none h w = tt
Within-mono (some a) h w = omega arith

pub strstr-Within : (text key : Bytes) → Within (length text) (strstr text key)
unfolding strstr
strstr-Within [] key = ground arith
strstr-Within (c ∷ text) key = elim (Bool-cases (starts_with key (c ∷ text))) [
  | inl e ↦ rw e (omega arith)
  | inr e ↦ rw e (Within-mono (strstr text key) (omega arith) (strstr-Within text key))
]

pub length-before : (c : ℕ) (s : Bytes) → length (before c s) ≤ length s
unfolding before
length-before c [] = omega arith
length-before c (x ∷ s) = ground (arith, length-before c s)

pub length-since : (c : ℕ) (s : Bytes) → length (since c s) ≤ length s
unfolding since
length-since c [] = omega arith
length-since c (x ∷ s) = ground (arith, length-since c s)

matched-Within : (s : Bytes) → Within (length s) (matched s)
unfolding matched
matched-Within [] = tt
matched-Within (x ∷ s) = omega arith

after_equals-Within : (s rest : Bytes) → Within (length rest) (after_equals s rest)
unfolding after_equals
after_equals-Within [] rest = tt
after_equals-Within (x ∷ s) [] = tt
after_equals-Within (x ∷ s) (e ∷ rest) =
    Within-mono (matched (before b'&' rest)) (omega (arith, length-before b'&' rest))
      (matched-Within (before b'&' rest))

pub scan_value-Within : (s : Bytes) → Within (length s) (scan_value s)
unfolding scan_value
scan_value-Within s =
    Within-mono (scan_value s) (length-since b'=' s)
      (after_equals-Within (before b'=' s) (since b'=' s))

pub strcat_s-done :
    (capacity size : ℕ) (text more : Bytes)
    → length text + length more < size
    → length text + length more < capacity
    → strcat_s capacity size text more ≡ done (text ++ more)
unfolding strcat_s
strcat_s-done capacity size text more h k = ground arith

pub strncpy_s-done :
    (size : ℕ) (source : Bytes)
    → length source < size
    → strncpy_s size source (length source) ≡ done source
unfolding strncpy_s
strncpy_s-done size source h = ground (arith, take-length source)

pub sprintf_quoted-done :
    (size : ℕ) (text : Bytes)
    → length text + 2 < size
    → sprintf_quoted size text ≡ done (b'"' ∷ (text ++ b'"' ∷ []))
unfolding sprintf_quoted
sprintf_quoted-done size text h = ground arith

div-lt_of_lt : (p n : ℕ) → n < p * 10 → n / 10 < p
div-lt_of_lt p n h = omega arith

-- A number below 10 ^ (k + 1) has at most k + 1 digits.
length-digits_onto :
    (k rounds n : ℕ) (acc : Bytes)
    → n < 10 ^ suc k
    → length (digits_onto rounds n acc) ≤ suc k + length acc
unfolding digits_onto
length-digits_onto k zero n acc h = omega arith
length-digits_onto zero (suc r) n acc h = ground arith
length-digits_onto (suc k) (suc r) n acc h = ground (
  arith,
  length-digits_onto k r (n / 10) ((48 + n % 10) ∷ acc)
      (div-lt_of_lt (10 ^ suc k) n (rw pow-suc at h)),
)

pub length-decimal : (k n : ℕ) → n < 10 ^ suc k → length (decimal n) ≤ suc k
unfolding decimal
length-decimal k n h = omega (arith, length-digits_onto k (suc n) n [] h)
