-- ===== src/Protocol/Hash.antt =====
-- `get_hash`, `get_timestamp` of common/src/protocol.c. The digest and the clock are OpenSSL's and
-- the C library's: parameters.
use secure_chat.Prelude.{
  ℕ, ◌+◌, ◌*◌, ◌-◌, ◌/◌, ◌%◌, ◌≡◌, refl, Bool, Option, none, some, List, [], ◌∷◌, arith, ltb,
  if◌then◌else◌, Text, length, Option-cases, inl, inr,
}
use secure_chat.Protocol.{hash_length}

-- The EVP calls of `get_hash`, in the order of the calls. `final` gives the bytes of the digest.
pub record Evp : Type 0 where
  pub ctx_new : Bool
  pub init : Bool
  pub update : Text → Bool
  pub final : Text → Option (List ℕ)

-- SHA-512 has 64 bytes.
pub record IsSha512 (evp : Evp) : Type 0 where
  pub wide : (s : Text) (d : List ℕ) → evp.final s ≡ some d → length d ≡ hash_length

abbrev pub hex_digit : ℕ → ℕ
hex_digit d = if ltb d 10 then b'0' + d else b'a' + (d - 10)

-- `sprintf(output + i * 2, "%02x", hash[i])` for each byte, and the NUL.
unfoldable pub hex : List ℕ → Text
hex [] = []
hex (b ∷ bs) = hex_digit (b / 16) ∷ hex_digit (b % 16) ∷ hex bs

-- `none` is the exit code 1, `some` is 0 with the output.
unfoldable pub get_hash : Evp → Text → Option Text
get_hash evp input =
    if evp.ctx_new
    then if evp.init
      then if evp.update input
        then elim (evp.final input) [ none ↦ none | some hash ↦ some (hex hash) ]
        else none
      else none
    else none

length-hex : (d : List ℕ) → length (hex d) ≡ length d * 2
unfolding hex
length-hex [] = refl
length-hex (b ∷ bs) = omega (arith, length-hex bs)

-- The hex text of a digest fits its buffer of 129 bytes, the NUL included.
pub length-get_hash :
    (evp : Evp) (s t : Text) → IsSha512 evp → get_hash evp s ≡ some t → length t ≡ 128
unfolding get_hash
length-get_hash evp s t sha h = elim (Option-cases (evp.final s)) [
  | inl missing ↦ ground arith
  | inr (d, found) ↦ ground (arith, sha.wide s d, length-hex d)
]
