-- ===== src/Protocol/Number.antt =====
-- The numbers that common/src/protocol.c prints by `%d` and `%u` and reads back by `sscanf` and
-- `atoi`.
pub mod RoundTrip
pub mod Width
use secure_chat.Prelude.{
  ℕ, zero, suc, ◌+◌, ◌-◌, ◌*◌, ◌/◌, ◌%◌, ◌^◌, Bool, true, false, Option, none, some, [], ◌∷◌, ◌==◌,
  ltb, leb, if◌then◌else◌, Text, is_digit, is_space, Run, ok, fault, int_overflow, ◌>>=◌,
}

-- `negsuc n` is -(n + 1).
pub data ℤ : Type 0 where
  pos : ℕ → ℤ
  negsuc : ℕ → ℤ

-- One digit a round; `suc n` rounds are enough for `n`.
unfoldable pub decimal_loop : ℕ → ℕ → Text → Text
decimal_loop zero n out = out
decimal_loop (suc f) n out =
    let rest = decimal_loop f (n / 10) ((b'0' + n % 10) ∷ out) in
    if ltb n 10 then (b'0' + n % 10) ∷ out else rest

-- `%u`
unfoldable pub decimal : ℕ → Text
unfolding decimal_loop
decimal n = decimal_loop (suc n) n []

-- `%d`
unfoldable pub print_int : ℤ → Text
print_int (pos n) = decimal n
print_int (negsuc n) = b'-' ∷ decimal (suc n)

unfoldable pub skip_space : Text → Text
skip_space [] = []
skip_space (c ∷ s) = let rest = skip_space s in if is_space c then rest else c ∷ s

-- An optional sign: whether it is a minus, and what follows.
unfoldable pub scan_sign : Text → Bool × Text
scan_sign [] = (false, [])
scan_sign (c ∷ s) =
    if c == b'-' then (true, s) else if c == b'+' then (false, s) else (false, c ∷ s)

unfoldable pub scan_digits : ℕ → Text → ℕ × Text
scan_digits v [] = (v, [])
scan_digits v (c ∷ s) =
    let rest = scan_digits (v * 10 + (c - b'0')) s in if is_digit c then rest else (v, c ∷ s)

-- At least one digit.
unfoldable pub scan_nat : Text → Option (ℕ × Text)
unfolding scan_digits
scan_nat [] = none
scan_nat (c ∷ s) = if is_digit c then some (scan_digits 0 (c ∷ s)) else none

unfoldable pub negate : ℕ → ℤ
negate zero = pos 0
negate (suc n) = negsuc n

-- A value that `int` does not hold is undefined behaviour of `%d` and of `atoi`.
unfoldable pub int_of : Bool → ℕ → Run ℤ
unfolding negate
int_of true n = if leb n (2 ^ 31) then ok (negate n) else fault int_overflow
int_of false n = if ltb n (2 ^ 31) then ok (pos n) else fault int_overflow

-- A minus sign wraps around, as `strtoul` has it.
unfoldable pub unsigned_of : Bool → ℕ → Run ℕ
unsigned_of neg n =
    if ltb n (2 ^ 32) then ok (if neg then (2 ^ 32 - n) % 2 ^ 32 else n) else fault int_overflow

unfoldable pub int_after : Bool × Text → Run (Option (ℤ × Text))
int_after (neg, s) = elim (scan_nat s) [
  | none ↦ ok none
  | some (n, rest) ↦ do z ← int_of neg n; ok (some (z, rest))
]

unfoldable pub unsigned_after : Bool × Text → Run (Option (ℕ × Text))
unsigned_after (neg, s) = elim (scan_nat s) [
  | none ↦ ok none
  | some (n, rest) ↦ do z ← unsigned_of neg n; ok (some (z, rest))
]

-- The conversion `%d` of `sscanf`: `none` is a mismatch.
unfoldable pub scan_int : Text → Run (Option (ℤ × Text))
scan_int s = int_after (scan_sign (skip_space s))

-- The conversion `%u`.
unfoldable pub scan_unsigned : Text → Run (Option (ℕ × Text))
scan_unsigned s = unsigned_after (scan_sign (skip_space s))

-- `atoi`, which is 0 where no number stands.
unfoldable pub atoi : Text → Run ℤ
atoi s = do r ← scan_int s; ok (elim r [ none ↦ pos 0 | some (z, rest) ↦ z ])
