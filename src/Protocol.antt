-- ===== src/Protocol.antt =====
-- common/include/protocol.h and common/src/protocol.c: the message structure and its limits.
pub mod Number
pub mod Codes
pub mod Names
pub mod Create
pub mod Wire
pub mod Hash
use secure_chat.Prelude.{ℕ, ◌+◌, ◌*◌, Text}
use secure_chat.Protocol.Number.{ℤ}

abbrev pub hash_length : ℕ
hash_length = 64

-- two hex digits for a byte, and the NUL
abbrev pub hash_hex_output_length : ℕ
hash_hex_output_length = hash_length * 2 + 1

abbrev pub buffer_size : ℕ
buffer_size = 4096

abbrev pub max_payload_size : ℕ
max_payload_size = 2048

-- A field that is a `char` array is the C string that it holds.
pub record Message : Type 0 where
  pub message_uid : Text
  pub type : ℤ
  pub sender_uid : Text
  pub recipient_uid : Text
  pub payload_length : ℕ
  pub payload : Text
