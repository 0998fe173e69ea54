-- ===== src/Protocol/Create.antt =====
-- `create_message` of common/src/protocol.c.
pub mod Bounds
pub mod Refusals
use secure_chat.Prelude.{
  ℕ, ◌+◌, ◌%◌, ◌^◌, Bool, true, false, not, ◌&&◌, ◌||◌, Option, none, some, [], ◌++◌, ◌==◌, ltb,
  if◌then◌else◌, Text, length, take, snprintf, Run, ok, fault, out_of_bounds, ◌>>=◌,
}
use secure_chat.Protocol.{Message, hash_hex_output_length, max_payload_size}
use secure_chat.Protocol.Number.{ℤ}
use secure_chat.Protocol.Codes.{int_eq, message_ping, message_ack}
use secure_chat.Protocol.Hash.{Evp, get_hash}

abbrev pub message_creation_success : ℕ
message_creation_success = 2100

abbrev pub message_creation_failure : ℕ
message_creation_failure = 2101

abbrev pub message_creation_payload_size_exceeded : ℕ
message_creation_payload_size_exceeded = 2109

abbrev pub message_creation_username_size_exceeded : ℕ
message_creation_username_size_exceeded = 2110

abbrev pub message_creation_payload_empty : ℕ
message_creation_payload_empty = 2111

abbrev pub message_creation_hash_failure : ℕ
message_creation_hash_failure = 2112

-- A `const char*` argument: NULL, a string of its own, or a pointer to a field of the very message
-- that is being built.
pub data Arg : Type 0 where
  null : Arg
  text : Text → Arg
  field : (Message → Text) → Arg

-- What the clock and the digest give to one call.
pub record Env : Type 0 where
  pub evp : Evp
  pub timestamp : Text
  pub uid_memory : Bool

-- The string behind a pointer that is not NULL, as it stands now.
abbrev pub read : Message → Arg → Text
read m null = []
read m (text s) = s
read m (field f) = f m

abbrev pub is_null : Arg → Bool
is_null null = true
is_null (text s) = false
is_null (field f) = false

-- `if (payload == NULL) payload = ""`
abbrev pub or_empty : Arg → Arg
or_empty null = text []
or_empty (text s) = text s
or_empty (field f) = field f

abbrev pub clear : Message → Message
clear m = record m { message_uid = []; sender_uid = []; recipient_uid = []; payload = [] }

-- `msg->payload[msg->payload_length] = '\0'`
unfoldable pub terminate : Message → Run Message
terminate m =
    if ltb m.payload_length max_payload_size
    then ok (record m { payload = take m.payload_length m.payload })
    else fault out_of_bounds

-- The writes behind the hash, in their order.
unfoldable pub fill : Message → Text → ℤ → Arg → Arg → Arg → Message
fill m uid type sender recipient payload =
    let m1 = record m { message_uid = snprintf hash_hex_output_length uid; type = type } in
    let m2 = record m1 { sender_uid = snprintf hash_hex_output_length (read m1 sender) } in
    let m3 = record m2 { recipient_uid = snprintf hash_hex_output_length (read m2 recipient) } in
    let m4 = record m3 { payload_length = length (read m3 payload) % 2 ^ 32 } in
    record m4 { payload = snprintf max_payload_size (read m4 payload) }

-- The bytes that are hashed.
abbrev pub uid_before_hash : Env → Text → Text
uid_before_hash env payload =
    snprintf (hash_hex_output_length + max_payload_size) (env.timestamp ++ payload)

-- `char uid[HASH_HEX_OUTPUT_LENGTH]` takes the hex text with its NUL.
unfoldable pub build : Env → Message → ℤ → Arg → Arg → Arg → Run (Message × ℕ)
build env m type sender recipient payload =
    elim (get_hash env.evp (uid_before_hash env (read m payload))) [
      | none ↦ ok (m, message_creation_hash_failure)
      | some uid ↦
          if ltb (length uid) hash_hex_output_length
          then (do
            m' ← terminate (fill m uid type sender recipient payload)
            ok (m', message_creation_success))
          else fault out_of_bounds
    ]

-- The tests of the `if` chain on a message that is not NULL.
unfoldable pub create_in : Env → Message → ℤ → Arg → Arg → Arg → Run (Message × ℕ)
create_in env m type sender recipient payload =
    if is_null sender || is_null recipient
    then ok (m, message_creation_failure)
    else if ltb max_payload_size (length (read m payload))
    then ok (m, message_creation_payload_size_exceeded)
    else if ltb hash_hex_output_length (length (read m sender))
        || ltb hash_hex_output_length (length (read m recipient))
    then ok (m, message_creation_username_size_exceeded)
    else if length (read m payload) == 0
        && (not (int_eq type message_ping) || not (int_eq type message_ack))
    then ok (m, message_creation_payload_empty)
    else build env (clear m) type sender recipient payload

unfoldable pub create_message :
    Env → Option Message → ℤ → Arg → Arg → Arg → Run (Option Message × ℕ)
create_message env none type sender recipient payload = ok (none, message_creation_failure)
create_message env (some m) type sender recipient payload = do
  (m', code) ← create_in env m type sender recipient (or_empty payload)
  ok (some m', code)
