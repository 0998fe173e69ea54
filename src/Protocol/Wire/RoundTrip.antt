-- ===== src/Protocol/Wire/RoundTrip.antt =====
-- What `send_message` writes for a message, `parse_message` reads back.
use secure_chat.Prelude.{
  Avoids, ℕ, zero, suc, ◌^◌, ◌≤◌, ◌<◌, ◌≡◌, refl, some, [], ◌∷◌, ◌++◌, arith, lt→ltb, Text, length,
  take_all, ok, ◌∙◌,
}
use secure_chat.Protocol.{Message}
use secure_chat.Protocol.Number.{ℤ, decimal, print_int}
use secure_chat.Protocol.Number.RoundTrip.{IsInt, scan_int-print_int, scan_unsigned-decimal}
use secure_chat.Protocol.Create.{terminate}
use secure_chat.Protocol.Wire.{
  delimiter, format_message, span_not, non_empty, scan_set, scan_delimiter, behind, scan_payload,
  scan_length, scan_recipient, scan_sender, scan_type, scan_message, parse_message, store_payload,
  store_length, store_recipient, store_sender, store_type, store_uid,
}

-- Fields that the line can carry in front of the payload: identifiers of 1 to 128 bytes without
-- the delimiter, a type that is an `int`, a length that is a `uint32_t`.
pub record IsAddressed (m : Message) : Type 0 where
  pub uid : length m.message_uid ≤ 128
  pub sender : length m.sender_uid ≤ 128
  pub recipient : length m.recipient_uid ≤ 128
  pub int : IsInt m.type
  pub declared : m.payload_length < 2 ^ 32
  pub uid_some : 0 < length m.message_uid
  pub sender_some : 0 < length m.sender_uid
  pub recipient_some : 0 < length m.recipient_uid
  pub uid_clean : Avoids delimiter m.message_uid
  pub sender_clean : Avoids delimiter m.sender_uid
  pub recipient_clean : Avoids delimiter m.recipient_uid

-- A whole message that the line can carry: its payload has 1 to 2047 bytes and no newline, and
-- its length field is the length of the payload.
pub record IsSendable (m : Message) : Type 0 where
  pub addressed : IsAddressed m
  pub payload : length m.payload < 2048
  pub counted : m.payload_length ≡ length m.payload
  pub payload_some : 0 < length m.payload
  pub payload_clean : Avoids b'\n' m.payload

span_not-append :
    (stop width : ℕ) (t rest : Text)
    → Avoids stop t
    → length t ≤ width
    → span_not stop width (t ++ (stop ∷ rest)) ≡ (t, stop ∷ rest)
unfolding span_not
span_not-append stop zero [] rest h w = refl
span_not-append stop zero (c ∷ t) rest h w = absurd (omega arith)
span_not-append stop (suc width) [] rest h w = ground arith
span_not-append stop (suc width) (c ∷ t) rest h w =
    rw (h.0, span_not-append stop width t rest h.1 (omega arith))

-- The conversion goes on into what follows, where that does not begin with the stop.
span_not-longer :
    (stop width : ℕ) (t rest : Text)
    → Avoids stop t
    → length t ≤ width
    → (x : Text × Text) × (span_not stop width (t ++ rest) ≡ (t ++ x.0, x.1))
unfolding span_not
span_not-longer stop zero [] rest h w = (([], rest), refl)
span_not-longer stop zero (c ∷ t) rest h w = absurd (omega arith)
span_not-longer stop (suc width) [] rest h w = (span_not stop (suc width) rest, refl)
span_not-longer stop (suc width) (c ∷ t) rest h w =
    let (x, e) = span_not-longer stop width t rest h.1 (omega arith) in (x, rw (h.0, e) refl)

span_not-all :
    (stop width : ℕ) (t : Text) → Avoids stop t → length t ≤ width → span_not stop width t ≡ (t, [])
unfolding span_not
span_not-all stop zero [] h w = refl
span_not-all stop zero (c ∷ t) h w = absurd (omega arith)
span_not-all stop (suc width) [] h w = refl
span_not-all stop (suc width) (c ∷ t) h w = rw (h.0, span_not-all stop width t h.1 (omega arith))

non_empty-some : (t rest : Text) → 0 < length t → non_empty (t, rest) ≡ some (t, rest)
unfolding non_empty
non_empty-some [] rest h = absurd (omega arith)
non_empty-some (c ∷ t) rest h = refl

pub scan_set-append :
    (stop width : ℕ) (t rest : Text)
    → Avoids stop t
    → 0 < length t
    → length t ≤ width
    → scan_set stop width (t ++ (stop ∷ rest)) ≡ some (t, stop ∷ rest)
unfolding scan_set
scan_set-append stop width t rest h p w =
    rw (span_not-append stop width t rest h w) (non_empty-some t (stop ∷ rest) p)

scan_set-all :
    (stop width : ℕ) (t : Text)
    → Avoids stop t
    → 0 < length t
    → length t ≤ width
    → scan_set stop width t ≡ some (t, [])
unfolding scan_set
scan_set-all stop width t h p w = rw (span_not-all stop width t h w) (non_empty-some t [] p)

pub scan_set-longer :
    (stop width : ℕ) (t rest : Text)
    → Avoids stop t
    → 0 < length t
    → length t ≤ width
    → (x : Text × Text) × (scan_set stop width (t ++ rest) ≡ some (t ++ x.0, x.1))
unfolding scan_set non_empty
scan_set-longer stop width [] rest h p w = absurd (omega arith)
scan_set-longer stop width (c ∷ t) rest h p w =
    let (x, e) = span_not-longer stop width (c ∷ t) rest h w in (x, rw e refl)

scan_delimiter-cons : (s : Text) → scan_delimiter (delimiter ∷ s) ≡ some s
unfolding scan_delimiter
scan_delimiter-cons s = refl

-- One stage of the format after another, each on the text that the stages behind it follow.
module _ (m : Message) where
  scan_payload-all :
      (p : Text)
      → Avoids b'\n' p
      → 0 < length p
      → length p < 2048
      → scan_payload m p ≡ record m { payload = p }
  unfolding scan_payload store_payload
  scan_payload-all p h pos w = rw (scan_set-all b'\n' 2047 p h pos (omega arith)) refl

  scan_length-append :
      (n : ℕ) (rest : Text)
      → n < 2 ^ 32
      → scan_length m (decimal n ++ (delimiter ∷ rest))
        ≡ ok (scan_payload (record m { payload_length = n }) rest)
  unfolding scan_length store_length behind
  scan_length-append n rest h =
      rw (scan_unsigned-decimal n (delimiter ∷ rest) h refl, scan_delimiter-cons rest) refl

  scan_recipient-append :
      (t rest : Text)
      → Avoids delimiter t
      → 0 < length t
      → length t ≤ 128
      → scan_recipient m (t ++ (delimiter ∷ rest))
        ≡ scan_length (record m { recipient_uid = t }) rest
  unfolding scan_recipient store_recipient behind
  scan_recipient-append t rest h p w =
      rw (scan_set-append delimiter 128 t rest h p w, scan_delimiter-cons rest) refl

  scan_sender-append :
      (t rest : Text)
      → Avoids delimiter t
      → 0 < length t
      → length t ≤ 128
      → scan_sender m (t ++ (delimiter ∷ rest)) ≡ scan_recipient (record m { sender_uid = t }) rest
  unfolding scan_sender store_sender behind
  scan_sender-append t rest h p w =
      rw (scan_set-append delimiter 128 t rest h p w, scan_delimiter-cons rest) refl

  scan_type-append :
      (z : ℤ) (rest : Text)
      → IsInt z
      → scan_type m (print_int z ++ (delimiter ∷ rest)) ≡ scan_sender (record m { type = z }) rest
  unfolding scan_type store_type behind
  scan_type-append z rest h =
      rw (scan_int-print_int z (delimiter ∷ rest) h refl, scan_delimiter-cons rest) refl

  scan_message-append :
      (t rest : Text)
      → Avoids delimiter t
      → 0 < length t
      → length t ≤ 128
      → scan_message m (t ++ (delimiter ∷ rest)) ≡ scan_type (record m { message_uid = t }) rest
  unfolding scan_message store_uid behind
  scan_message-append t rest h p w =
      rw (scan_set-append delimiter 128 t rest h p w, scan_delimiter-cons rest) refl

-- The fields in front of the payload, and any text in its place.
abbrev pub with_tail : Message → Text → Text
with_tail m tail = format_message (record m { payload = tail })

pub scan_message-with_tail :
    (old m : Message) (tail : Text)
    → IsAddressed m
    → scan_message old (with_tail m tail)
      ≡ ok (scan_payload (record m { payload = old.payload }) tail)
unfolding format_message
scan_message-with_tail old m tail is =
    let m1 : Message = record old { message_uid = m.message_uid } in
    let m2 : Message = record m1 { type = m.type } in
    let m3 : Message = record m2 { sender_uid = m.sender_uid } in
    let m4 : Message = record m3 { recipient_uid = m.recipient_uid } in
    scan_message-append old m.message_uid _ is.uid_clean is.uid_some is.uid
    ∙ scan_type-append m1 m.type _ is.int
    ∙ scan_sender-append m2 m.sender_uid _ is.sender_clean is.sender_some is.sender
    ∙ scan_recipient-append m3 m.recipient_uid _ is.recipient_clean is.recipient_some is.recipient
    ∙ scan_length-append m4 m.payload_length tail is.declared

pub scan_message-format_message :
    (old m : Message)
    → IsAddressed m
    → scan_message old (format_message m)
      ≡ ok (scan_payload (record m { payload = old.payload }) m.payload)
scan_message-format_message old m is = scan_message-with_tail old m m.payload is

terminate-counted :
    (m : Message)
    → m.payload_length ≡ length m.payload
    → length m.payload < 2048
    → terminate m ≡ ok m
unfolding terminate
terminate-counted m e h =
    rw
      (
        take_all m.payload_length m.payload (omega arith),
        lt→ltb m.payload_length 2048 (omega arith),
      )
      refl

-- Parsing the line of a message that can be sent gives that message, whatever the structure held
-- before.
pub parse_message-format_message :
    (old m : Message) → IsSendable m → parse_message old (format_message m) ≡ ok m
unfolding parse_message
parse_message-format_message old m is =
    rw
      (
        scan_message-format_message old m is.addressed,
        scan_payload-all (record m { payload = old.payload }) m.payload is.payload_clean
            is.payload_some is.payload,
      )
      (terminate-counted m is.counted is.payload)
