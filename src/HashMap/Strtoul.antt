-- ===== src/HashMap/Strtoul.antt =====
-- `strtoul(uid, NULL, 16)`, which common/src/hash_map.c computes bucket numbers by.
use secure_chat.Prelude.{
  ℕ, ◌+◌, ◌-◌, ◌*◌, ◌%◌, ◌^◌, Bool, ◌||◌, Option, none, some, [], ◌∷◌, ◌==◌, ltb, leb,
  if◌then◌else◌, Text,
}
use secure_chat.Protocol.Number.{skip_space, scan_sign}

hex_value : ℕ → Option ℕ
hex_value c =
    if leb b'0' c
    then if leb c b'9'
      then some (c - b'0')
      else if leb b'A' c
      then if leb c b'F'
        then some (c - b'A' + 10)
        else if leb b'a' c
        then if leb c b'f' then some (c - b'a' + 10) else none
        else none
      else none
    else none

hex_digits : ℕ → Text → ℕ
hex_digits v [] = v
hex_digits v (c ∷ s) = elim (hex_value c) [ none ↦ v | some d ↦ hex_digits (v * 16 + d) s ]

-- `0x` in front of the digits is skipped.
skip_prefix : Text → Text
skip_prefix [] = []
skip_prefix (z ∷ []) = z ∷ []
skip_prefix (z ∷ x ∷ []) = z ∷ x ∷ []
skip_prefix (z ∷ x ∷ c ∷ s) = elim (hex_value c) [
  | none ↦ z ∷ x ∷ c ∷ s
  | some d ↦
      if z == b'0' then if x == b'x' || x == b'X' then c ∷ s else z ∷ x ∷ c ∷ s else z ∷ x ∷ c ∷ s
]

-- A value that `unsigned long` does not hold is ULONG_MAX; a minus sign wraps around.
bounded : Bool → ℕ → ℕ
bounded neg v = if ltb v (2 ^ 64) then if neg then (2 ^ 64 - v) % 2 ^ 64 else v else 2 ^ 64 - 1

signed : Bool × Text → ℕ
unfolding bounded hex_digits skip_prefix hex_value
signed (neg, s) = bounded neg (hex_digits 0 (skip_prefix s))

-- `strtoul(uid, NULL, 16)`
unfoldable pub strtoul : Text → ℕ
unfolding signed skip_space scan_sign
strtoul s = signed (scan_sign (skip_space s))
