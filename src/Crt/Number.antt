-- ===== src/Crt/Number.antt =====
-- Numbers in decimal, as `%d` and _itoa_s print them, and the conversion to `int`.
use amsserver.Base.{
  ℕ, zero, suc, ◌+◌, ◌-◌, ◌/◌, ◌%◌, ◌^◌, [], ◌∷◌, ltb, leb, if◌then◌else◌, length, Bytes, Outcome,
  done, crash, invalid_parameter,
}

-- The digits of `n` in front of `acc`; a number has fewer digits than `n + 1` rounds.
unfoldable pub digits_onto : ℕ → ℕ → Bytes → Bytes
digits_onto zero n acc = acc
digits_onto (suc rounds) n acc =
    let rest = digits_onto rounds (n / 10) ((48 + n % 10) ∷ acc) in
    if ltb n 10 then (48 + n) ∷ acc else rest

unfoldable pub decimal : ℕ → Bytes
unfolding digits_onto
decimal n = digits_onto (suc n) n []

-- A 32-bit `int`; `negative n` is -n.
pub data Int32 : Type 0 where
  natural negative : ℕ → Int32

-- `(int)n` of an unsigned 64-bit `n` keeps the low 32 bits, in two's complement.
unfoldable pub to_int32 : ℕ → Int32
to_int32 n =
    if ltb (n % 2 ^ 32) (2 ^ 31) then natural (n % 2 ^ 32) else negative (2 ^ 32 - n % 2 ^ 32)

unfoldable pub print_int : Int32 → Bytes
unfolding decimal
print_int (natural n) = decimal n
print_int (negative n) = b'-' ∷ decimal n

-- `_itoa_s(n, buffer, 10)` on a buffer of `size` bytes.
unfoldable pub itoa_s : ℕ → Int32 → Outcome Bytes
unfolding print_int
itoa_s size n =
    if leb size (length (print_int n)) then crash invalid_parameter else done (print_int n)
