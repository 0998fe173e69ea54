-- ===== src/Protocol/Wire.antt =====
-- `send_message` and `parse_message` of common/src/protocol.c: a message as a line of text.
pub mod RoundTrip
pub mod Buffer
pub mod Safety
pub mod Send
pub mod Sendable
use secure_chat.Prelude.{
  ℕ, zero, suc, ◌-◌, ◌≡◌, Bool, true, false, Option, none, some, [], ◌∷◌, ◌++◌, ◌==◌, ltb,
  if◌then◌else◌, Text, length, take, snprintf, Run, ok, fault, out_of_bounds, ◌>>=◌,
}
use secure_chat.Protocol.{Message, buffer_size, hash_hex_output_length, max_payload_size}
use secure_chat.Protocol.Number.{ℤ, pos, negsuc, decimal, print_int, scan_int, scan_unsigned}
use secure_chat.Protocol.Create.{terminate}

-- MESSAGE_DELIMITER
abbrev pub delimiter : ℕ
delimiter = b'|'

-- The text that `snprintf` of `send_message` is asked for.
unfoldable pub format_message : Message → Text
format_message m =
    m.message_uid
    ++ (delimiter
        ∷ (print_int m.type
            ++ (delimiter
                ∷ (m.sender_uid
                    ++ (delimiter
                        ∷ (m.recipient_uid
                            ++ (delimiter
                                ∷ (decimal m.payload_length ++ (delimiter ∷ m.payload)))))))))

-- What `SSL_get_error` tells of a call that sent nothing.
pub data SslError : Type 0 where
  want_read want_write other : SslError

-- OpenSSL's connection: `SSL_write` of a text, `SSL_get_error` of its result, and `SSL_read`, which
-- is `none` where it returns no bytes, and else what stands in the buffer up to its first NUL.
pub record Ssl : Type 1 where
  pub State : Type 0
  pub write : State → Text → ℤ × State
  pub read : State → Option Text × State
  pub get_error : State → ℤ → SslError

abbrev pub message_send_success : ℕ
message_send_success = 2300

abbrev pub message_send_failure : ℕ
message_send_failure = 2301

abbrev pub message_send_retry : ℕ
message_send_retry = 2302

-- `bytes_sent > 0`
abbrev pub is_positive : ℤ → Bool
is_positive (pos zero) = false
is_positive (pos (suc n)) = true
is_positive (negsuc n) = false

abbrev pub error_code : SslError → ℕ
error_code want_write = message_send_retry
error_code want_read = message_send_retry
error_code other = message_send_failure

-- The connection, the message and the result code behind the call.
unfoldable pub send_message :
    (ssl : Ssl) → ssl.State → Option Message → ssl.State × Option Message × ℕ
send_message ssl c none = (c, none, message_send_failure)
send_message ssl c (some m) =
    let (bytes_sent, c') = ssl.write c (snprintf buffer_size (format_message m)) in
    if is_positive bytes_sent
    then (c', some (record m { payload = []; payload_length = 0 }), message_send_success)
    else (c', some m, error_code (ssl.get_error c' bytes_sent))

-- The conversion `%<width>[^<stop>]`: at least one byte.
unfoldable pub span_not : ℕ → ℕ → Text → Text × Text
span_not stop zero s = ([], s)
span_not stop (suc w) [] = ([], [])
span_not stop (suc w) (c ∷ s) =
    let rest = span_not stop w s in if c == stop then ([], c ∷ s) else (c ∷ rest.0, rest.1)

unfoldable pub non_empty : Text × Text → Option (Text × Text)
non_empty ([], s) = none
non_empty (c ∷ t, s) = some (c ∷ t, s)

unfoldable pub scan_set : ℕ → ℕ → Text → Option (Text × Text)
scan_set stop width s = non_empty (span_not stop width s)

-- A literal `|` of the format.
unfoldable pub scan_delimiter : Text → Option Text
scan_delimiter [] = none
scan_delimiter (c ∷ s) = if c == delimiter then some s else none

-- The conversions of `parse_message` from the last to the first: each stores its value, and a
-- mismatch leaves the fields behind it alone.
unfoldable pub store_payload : Message → Option (Text × Text) → Message
store_payload m none = m
store_payload m (some (t, rest)) = record m { payload = t }

unfoldable pub scan_payload : Message → Text → Message
scan_payload m s = store_payload m (scan_set b'\n' (max_payload_size - 1) s)

unfoldable pub behind : Option Text → Message → (Text → Run Message) → Run Message
behind none m next = ok m
behind (some s) m next = next s

unfoldable pub store_length : Message → Option (ℕ × Text) → Run Message
store_length m none = ok m
store_length m (some (n, rest)) =
    let m' = record m { payload_length = n } in
    behind (scan_delimiter rest) m' (λ t. ok (scan_payload m' t))

unfoldable pub scan_length : Message → Text → Run Message
scan_length m s = scan_unsigned s >>= store_length m

unfoldable pub store_recipient : Message → Option (Text × Text) → Run Message
store_recipient m none = ok m
store_recipient m (some (t, rest)) =
    let m' = record m { recipient_uid = t } in behind (scan_delimiter rest) m' (scan_length m')

unfoldable pub scan_recipient : Message → Text → Run Message
scan_recipient m s = store_recipient m (scan_set delimiter (hash_hex_output_length - 1) s)

unfoldable pub store_sender : Message → Option (Text × Text) → Run Message
store_sender m none = ok m
store_sender m (some (t, rest)) =
    let m' = record m { sender_uid = t } in behind (scan_delimiter rest) m' (scan_recipient m')

unfoldable pub scan_sender : Message → Text → Run Message
scan_sender m s = store_sender m (scan_set delimiter (hash_hex_output_length - 1) s)

unfoldable pub store_type : Message → Option (ℤ × Text) → Run Message
store_type m none = ok m
store_type m (some (z, rest)) =
    let m' = record m { type = z } in behind (scan_delimiter rest) m' (scan_sender m')

unfoldable pub scan_type : Message → Text → Run Message
scan_type m s = scan_int s >>= store_type m

unfoldable pub store_uid : Message → Option (Text × Text) → Run Message
store_uid m none = ok m
store_uid m (some (t, rest)) =
    let m' = record m { message_uid = t } in behind (scan_delimiter rest) m' (scan_type m')

unfoldable pub scan_message : Message → Text → Run Message
scan_message m s = store_uid m (scan_set delimiter (hash_hex_output_length - 1) s)

-- The declared length of the payload says where its NUL is written.
unfoldable pub parse_message : Message → Text → Run Message
parse_message m buffer = do m' ← scan_message m buffer; terminate m'
