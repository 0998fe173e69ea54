-- ===== src/Protocol/Wire/Send.antt =====
-- What `send_message` hands to `SSL_write`, and what it leaves behind.
use secure_chat.Prelude.{
  ◌≤◌, ◌≡◌, refl, some, [], arith, if◌then◌else◌, length, length-append, take_all,
}
use secure_chat.Protocol.{Message}
use secure_chat.Protocol.Number.RoundTrip.{IsInt}
use secure_chat.Protocol.Number.Width.{length-decimal, length-print_int}
use secure_chat.Protocol.Create.Bounds.{IsSized}
use secure_chat.Protocol.Wire.{
  format_message, Ssl, is_positive, error_code, send_message, message_send_success,
}

-- The line of a message that fits its arrays needs at most 2457 bytes.
pub length-format_message :
    (m : Message) → IsSized m → IsInt m.type → length (format_message m) ≤ 2457
unfolding format_message
length-format_message m is int =
    let wide = length-print_int m.type int in
    let long = length-decimal m.payload_length (omega arith) in simp (length-append) (omega arith)

-- The buffer cuts nothing off: the connection is asked to write the whole line. If it takes any
-- of it the payload is emptied; if not, the message stays and the code tells to retry or to give up.
pub send_message-whole :
    (ssl : Ssl) (c : ssl.State) (m : Message)
    → IsSized m
    → IsInt m.type
    → send_message ssl c (some m) ≡ (
        let sent = ssl.write c (format_message m) in
        if is_positive sent.0
        then (sent.1, some (record m { payload = []; payload_length = 0 }), message_send_success)
        else (sent.1, some m, error_code (ssl.get_error sent.1 sent.0)))
unfolding send_message
send_message-whole ssl c m is int =
    let fits = length-format_message m is int in
    rw (take_all 4095 (format_message m) (omega arith)) refl
