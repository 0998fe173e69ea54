-- ===== src/Protocol/Wire/Safety.antt =====
-- Which writes of `parse_message` stay inside the structure.
use secure_chat.Prelude.{
  max, Always, Always-ok, ℕ, zero, suc, ◌≤◌, ◌<◌, ◌≡◌, refl, false, Option, none, some, [], ◌∷◌,
  ltb, arith, inl, inr, Bool-cases, Option-cases, Text, length, length-take, Run, ok, fault,
  out_of_bounds, ◌>>=◌,
}
use secure_chat.Protocol.{Message}
use secure_chat.Protocol.Number.{ℤ, scan_int, scan_unsigned}
use secure_chat.Protocol.Create.{terminate}
use secure_chat.Protocol.Wire.{
  delimiter, format_message, span_not, non_empty, scan_set, scan_delimiter, behind, scan_payload,
  scan_length, scan_recipient, scan_sender, scan_type, scan_message, parse_message, store_payload,
  store_length, store_recipient, store_sender, store_type, store_uid,
}
use secure_chat.Protocol.Wire.RoundTrip.{IsAddressed, scan_message-format_message}

-- Behind a call the strings of the structure, each with its NUL, are within their arrays, or no longer than
-- they were before: a mismatch leaves a field as it was. The payload is within its array in any case.
pub record Fits (old m : Message) : Type 0 where
  pub uid : length m.message_uid ≤ max 128 (length old.message_uid)
  pub sender : length m.sender_uid ≤ max 128 (length old.sender_uid)
  pub recipient : length m.recipient_uid ≤ max 128 (length old.recipient_uid)
  pub payload : length m.payload ≤ m.payload_length
  pub counted : m.payload_length < 2048

-- The bounds of the identifiers.
record Within (a b c : ℕ) (m : Message) : Type 0 where
  uid : length m.message_uid ≤ a
  sender : length m.sender_uid ≤ b
  recipient : length m.recipient_uid ≤ c

length-span_not : (stop width : ℕ) (s : Text) → length (span_not stop width s).0 ≤ width
unfolding span_not
length-span_not stop zero s = omega arith
length-span_not stop (suc width) [] = omega arith
length-span_not stop (suc width) (c ∷ s) = ground (arith, length-span_not stop width s)

length-non_empty :
    (p : Text × Text) {t rest : Text} → non_empty p ≡ some (t, rest) → length t ≡ length p.0
unfolding non_empty
length-non_empty ([], s) h = cc
length-non_empty (c ∷ t, s) h = ground arith

-- A conversion with a width stores at most that many bytes.
length-scan_set :
    (stop width : ℕ) (s : Text) {t rest : Text}
    → scan_set stop width s ≡ some (t, rest)
    → length t ≤ width
unfolding scan_set
length-scan_set stop width s h =
    omega (arith, length-non_empty (span_not stop width s) h, length-span_not stop width s)

module _ (a b c : ℕ) (wa : 128 ≤ a) (wb : 128 ≤ b) (wc : 128 ≤ c) where
  scan_payload-Within : (m : Message) (s : Text) → Within a b c m → Within a b c (scan_payload m s)
  unfolding scan_payload store_payload
  scan_payload-Within m s f = elim (Option-cases (scan_set b'\n' 2047 s)) [
    | inl e ↦ rw e f
    | inr ((t, rest), e) ↦ rw e (omega arith)
  ]

  -- What holds of the message that a run returns.
  abbrev Keeps : Run Message → Type 0
  Keeps (ok m) = Within a b c m
  Keeps (fault why) = Unit {0}

  behind-Keeps :
      (r : Option Text) (m : Message) (next : Text → Run Message)
      → Within a b c m
      → ((s : Text) → Keeps (next s))
      → Keeps (behind r m next)
  unfolding behind
  behind-Keeps none m next f all = f
  behind-Keeps (some s) m next f all = all s

  >>=-Keeps :
      {A : Type 0} (r : Run A) (next : A → Run Message)
      → ((x : A) → Keeps (next x))
      → Keeps (r >>= next)
  >>=-Keeps (ok x) next all = all x
  >>=-Keeps (fault e) next all = tt

  store_length-Keeps :
      (m : Message) (r : Option (ℕ × Text)) → Within a b c m → Keeps (store_length m r)
  unfolding store_length
  store_length-Keeps m none f = f
  store_length-Keeps m (some (n, rest)) f =
      let f' : Within a b c (record m { payload_length = n }) = omega arith in
      behind-Keeps (scan_delimiter rest) _ _ f' (λ t. scan_payload-Within _ t f')

  store_recipient-Keeps :
      (m : Message) (r : Option (Text × Text))
      → Within a b c m
      → ((t rest : Text) → r ≡ some (t, rest) → length t ≤ 128)
      → Keeps (store_recipient m r)
  unfolding store_recipient scan_length
  store_recipient-Keeps m none f w = f
  store_recipient-Keeps m (some (t, rest)) f w =
      let f' : Within a b c (record m { recipient_uid = t }) = omega (arith, w t rest refl) in
      behind-Keeps (scan_delimiter rest) _ _ f'
        (λ s. >>=-Keeps (scan_unsigned s) _ (λ r. store_length-Keeps _ r f'))

  store_sender-Keeps :
      (m : Message) (r : Option (Text × Text))
      → Within a b c m
      → ((t rest : Text) → r ≡ some (t, rest) → length t ≤ 128)
      → Keeps (store_sender m r)
  unfolding store_sender scan_recipient
  store_sender-Keeps m none f w = f
  store_sender-Keeps m (some (t, rest)) f w =
      let f' : Within a b c (record m { sender_uid = t }) = omega (arith, w t rest refl) in
      behind-Keeps (scan_delimiter rest) _ _ f'
        (λ s. store_recipient-Keeps _ _ f' (λ u more e. length-scan_set delimiter 128 s e))

  store_type-Keeps : (m : Message) (r : Option (ℤ × Text)) → Within a b c m → Keeps (store_type m r)
  unfolding store_type scan_sender
  store_type-Keeps m none f = f
  store_type-Keeps m (some (z, rest)) f =
      let f' : Within a b c (record m { type = z }) = omega arith in
      behind-Keeps (scan_delimiter rest) _ _ f'
        (λ s. store_sender-Keeps _ _ f' (λ u more e. length-scan_set delimiter 128 s e))

  store_uid-Keeps :
      (m : Message) (r : Option (Text × Text))
      → Within a b c m
      → ((t rest : Text) → r ≡ some (t, rest) → length t ≤ 128)
      → Keeps (store_uid m r)
  unfolding store_uid scan_type
  store_uid-Keeps m none f w = f
  store_uid-Keeps m (some (t, rest)) f w =
      let f' : Within a b c (record m { message_uid = t }) = omega (arith, w t rest refl) in
      behind-Keeps (scan_delimiter rest) _ _ f'
        (λ s. >>=-Keeps (scan_int s) _ (λ r. store_type-Keeps _ r f'))

terminate-Fits :
    (old : Message) (run : Run Message)
    → Keeps
        (max 128 (length old.message_uid))
        (max 128 (length old.sender_uid))
        (max 128 (length old.recipient_uid))
        (omega arith)
        (omega arith)
        (omega arith)
        run
    → Always (run >>= terminate) (Fits old)
unfolding terminate
terminate-Fits old (fault why) kept = λ m e. cc
terminate-Fits old (ok read) kept = elim (Bool-cases (ltb read.payload_length 2048)) [
  | inr ge ↦ rw ge (λ m e. cc)
  | inl lt ↦ rw lt (
      Always-ok _ _ (record {
        uid = kept.uid;
        sender = kept.sender;
        recipient = kept.recipient;
        payload = omega (arith, length-take read.payload_length read.payload);
        counted = ground arith;
      }))
]

-- Whatever line arrives, and whatever memory the structure was: if parsing the line does not write outside
-- the structure, then no identifier is longer behind it than its array holds, or than it was before, and the
-- payload fits its array.
pub parse_message-Fits :
    (old m : Message) (buffer : Text) → parse_message old buffer ≡ ok m → Fits old m
unfolding parse_message scan_message terminate
parse_message-Fits old m buffer e =
    let a = max 128 (length old.message_uid) in
    let b = max 128 (length old.sender_uid) in
    let c = max 128 (length old.recipient_uid) in
    let kept =
      store_uid-Keeps a b c (omega arith) (omega arith) (omega arith) old
        (scan_set delimiter 128 buffer) (omega arith)
        (λ t rest h. length-scan_set delimiter 128 buffer h) in
    terminate-Fits old (scan_message old buffer) kept m e

scan_payload-payload_length :
    (m : Message) (s : Text) → (scan_payload m s).payload_length ≡ m.payload_length
unfolding scan_payload store_payload
scan_payload-payload_length m s = elim (Option-cases (scan_set b'\n' 2047 s)) [
  | inl e ↦ rw e refl
  | inr ((t, rest), e) ↦ rw e refl
]

-- A peer that declares a payload length of 2048 or more makes the NUL land outside the payload
-- array, whatever payload follows.
pub parse_message-overflow :
    (old m : Message)
    → IsAddressed m
    → 2048 ≤ m.payload_length
    → parse_message old (format_message m) ≡ fault out_of_bounds
unfolding parse_message terminate
parse_message-overflow old m is h =
    let after = scan_payload (record m { payload = old.payload }) m.payload in
    let same = scan_payload-payload_length (record m { payload = old.payload }) m.payload in
    let big : ltb after.payload_length 2048 ≡ false = ground arith in
    rw (scan_message-format_message old m is) (rw big refl)
