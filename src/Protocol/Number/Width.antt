-- ===== src/Protocol/Number/Width.antt =====
-- How many digits `%u` and `%d` print.
use native.Mathlib.Nat.{pow-suc}
use secure_chat.Prelude.{
  ℕ, zero, suc, ◌+◌, ◌/◌, ◌%◌, ◌^◌, ◌≤◌, ◌<◌, ◌∷◌, [], arith, ltb, inl, inr, Bool-cases, Text,
  length,
}
use secure_chat.Protocol.Number.{ℤ, pos, negsuc, decimal_loop, decimal, print_int}
use secure_chat.Protocol.Number.RoundTrip.{IsInt}

-- A number below 10 ^ (k + 1) adds at most k + 1 digits.
length-decimal_loop :
    (k f n : ℕ) (out : Text) → n < 10 ^ suc k → length (decimal_loop f n out) ≤ length out + suc k
unfolding decimal_loop
length-decimal_loop k zero n out h = omega arith
length-decimal_loop zero (suc f) n out h = ground arith
length-decimal_loop (suc k) (suc f) n out h = elim (Bool-cases (ltb n 10)) [
  | inl small ↦ rw small (omega arith)
  | inr large ↦ rw large (
      omega (
        arith,
        length-decimal_loop k f (n / 10) ((48 + n % 10) ∷ out) (omega (arith, pow-suc 10 (suc k))),
      ))
]

pub length-decimal : (n : ℕ) → n < 2 ^ 32 → length (decimal n) ≤ 10
unfolding decimal
length-decimal n h = length-decimal_loop 9 (suc n) n [] (omega arith)

pub length-print_int : (z : ℤ) → IsInt z → length (print_int z) ≤ 11
unfolding print_int
length-print_int (pos n) h = omega (arith, length-decimal n)
length-print_int (negsuc n) h = omega (arith, length-decimal (suc n))
