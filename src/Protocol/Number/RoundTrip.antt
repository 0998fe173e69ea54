-- ===== src/Protocol/Number/RoundTrip.antt =====
-- What `%d` and `%u` print is read back.
use secure_chat.Prelude.{
  ℕ, zero, suc, ◌+◌, ◌*◌, ◌/◌, ◌%◌, ◌^◌, ◌≤◌, ◌<◌, ◌≡◌, refl, ◌∙◌, ap, false, true, some, [], ◌∷◌,
  ◌++◌, arith, ltb, is_digit, inl, inr, Bool-cases, Text, ok, ltb→lt,
}
use secure_chat.Protocol.Number.{
  ℤ, pos, negsuc, decimal_loop, decimal, print_int, scan_digits, scan_nat, scan_int, scan_unsigned,
  scan_sign, skip_space, int_of, unsigned_of, int_after, unsigned_after, negate,
}

-- The text begins with no digit.
abbrev pub NoDigit : Text → Type 0
NoDigit [] = Unit {0}
NoDigit (c ∷ s) = is_digit c ≡ false

scan_digits-stop : (n : ℕ) (rest : Text) → NoDigit rest → scan_digits n rest ≡ (n, rest)
unfolding scan_digits
scan_digits-stop n [] h = refl
scan_digits-stop n (c ∷ s) h = rw h

digit_lem : (n : ℕ) → is_digit (48 + n % 10) ≡ true
digit_lem n = ground arith

scan_digits-digit :
    (v n : ℕ) (out : Text) → scan_digits v ((48 + n % 10) ∷ out) ≡ scan_digits (v * 10 + n % 10) out
unfolding scan_digits
scan_digits-digit v n out = rw (digit_lem n) (ap (λ w. scan_digits w out) (omega arith))

-- Reading what the loop printed gives the number, then goes on behind it.
scan_digits-decimal_loop :
    (f n : ℕ) (out : Text) → n < f → scan_digits 0 (decimal_loop f n out) ≡ scan_digits n out
unfolding decimal_loop
scan_digits-decimal_loop zero n out h = elim h [ ]
scan_digits-decimal_loop (suc f) n out h = elim (Bool-cases (ltb n 10)) [
  | inl small ↦
      let lt : n < 10 = ltb→lt n 10 small in
      rw small (scan_digits-digit 0 n out ∙ ap (λ w. scan_digits w out) (omega arith))
  | inr large ↦
      let ge : 10 ≤ n = ground arith in
      rw large (
        scan_digits-decimal_loop f (n / 10) ((48 + n % 10) ∷ out) (omega arith)
        ∙ scan_digits-digit (n / 10) n out
        ∙ ap (λ w. scan_digits w out) (omega arith))
]

decimal_loop-append :
    (f n : ℕ) (out rest : Text) → decimal_loop f n out ++ rest ≡ decimal_loop f n (out ++ rest)
unfolding decimal_loop
decimal_loop-append zero n out rest = refl
decimal_loop-append (suc f) n out rest = elim (Bool-cases (ltb n 10)) [
  | inl small ↦ rw small refl
  | inr large ↦ rw large (decimal_loop-append f (n / 10) ((48 + n % 10) ∷ out) rest)
]

-- The text begins with a digit.
abbrev StartsWithDigit : Text → Type 0
StartsWithDigit [] = ⊥
StartsWithDigit (c ∷ s) = is_digit c ≡ true

decimal_loop-StartsWithDigit :
    (f n : ℕ) (out : Text) → n < f → StartsWithDigit (decimal_loop f n out)
unfolding decimal_loop
decimal_loop-StartsWithDigit zero n out h = elim h [ ]
decimal_loop-StartsWithDigit (suc f) n out h = elim (Bool-cases (ltb n 10)) [
  | inl small ↦ rw small (digit_lem n)
  | inr large ↦
      let ge : 10 ≤ n = ground arith in
      rw large (decimal_loop-StartsWithDigit f (n / 10) ((48 + n % 10) ∷ out) (omega arith))
]

scan_nat-digit : (s : Text) → StartsWithDigit s → scan_nat s ≡ some (scan_digits 0 s)
unfolding scan_nat
scan_nat-digit [] h = elim h [ ]
scan_nat-digit (c ∷ s) h = rw h

-- A text that begins with a digit has no blank and no sign in front.
scan_sign-digit : (s : Text) → StartsWithDigit s → scan_sign (skip_space s) ≡ (false, s)
unfolding scan_sign skip_space
scan_sign-digit [] h = elim h [ ]
scan_sign-digit (c ∷ s) h = ground arith

decimal-StartsWithDigit : (n : ℕ) (rest : Text) → StartsWithDigit (decimal n ++ rest)
unfolding decimal
decimal-StartsWithDigit n rest =
    rw (decimal_loop-append (suc n) n [] rest)
      (decimal_loop-StartsWithDigit (suc n) n rest (omega arith))

scan_digits-decimal :
    (n : ℕ) (rest : Text) → NoDigit rest → scan_digits 0 (decimal n ++ rest) ≡ (n, rest)
unfolding decimal
scan_digits-decimal n rest h =
    rw (decimal_loop-append (suc n) n [] rest)
      (scan_digits-decimal_loop (suc n) n rest (omega arith) ∙ scan_digits-stop n rest h)

scan_nat-decimal :
    (n : ℕ) (rest : Text) → NoDigit rest → scan_nat (decimal n ++ rest) ≡ some (n, rest)
scan_nat-decimal n rest h =
    scan_nat-digit (decimal n ++ rest) (decimal-StartsWithDigit n rest)
    ∙ ap some (scan_digits-decimal n rest h)

-- The range of `int`.
abbrev pub IsInt : ℤ → Type 0
IsInt (pos n) = n < 2 ^ 31
IsInt (negsuc n) = n < 2 ^ 31

pub scan_unsigned-decimal :
    (n : ℕ) (rest : Text)
    → n < 2 ^ 32
    → NoDigit rest
    → scan_unsigned (decimal n ++ rest) ≡ ok (some (n, rest))
unfolding scan_unsigned unsigned_after unsigned_of
scan_unsigned-decimal n rest h d =
    rw (scan_sign-digit (decimal n ++ rest) (decimal-StartsWithDigit n rest))
      (rw (scan_nat-decimal n rest d, unsigned_after) (ground arith))

minus-sign : (s : Text) → scan_sign (skip_space (b'-' ∷ s)) ≡ (true, s)
unfolding scan_sign skip_space
minus-sign s = refl

pub scan_int-print_int :
    (z : ℤ) (rest : Text)
    → IsInt z
    → NoDigit rest
    → scan_int (print_int z ++ rest) ≡ ok (some (z, rest))
unfolding scan_int int_after int_of negate print_int
scan_int-print_int (pos n) rest h d =
    rw (scan_sign-digit (decimal n ++ rest) (decimal-StartsWithDigit n rest))
      (rw (scan_nat-decimal n rest d, int_after) (ground arith))
scan_int-print_int (negsuc n) rest h d =
    rw (minus-sign (decimal (suc n) ++ rest))
      (rw (scan_nat-decimal (suc n) rest d, int_after) (ground arith))
