-- ===== src/Protocol/Wire/Buffer.antt =====
-- parse_message of common/src/protocol.c on a buffer that holds more than the line that was sent: neither
-- send_message nor SSL_read puts a NUL behind it.
use secure_chat.Prelude.{◌≡◌, ◌<◌, refl, ap, [], ◌∷◌, ◌++◌, length, take, lt→ltb, Text, ok, arith}
use mathlib.Core.List.{append_assoc}
use secure_chat.Protocol.{Message}
use secure_chat.Protocol.Create.{terminate}
use secure_chat.Protocol.Wire.{format_message, scan_payload, store_payload, parse_message}
use secure_chat.Protocol.Wire.RoundTrip.{
  IsSendable, with_tail, scan_message-with_tail, scan_set-longer,
}

take-append : (t x : Text) → take (length t) (t ++ x) ≡ t
take-append [] [] = refl
take-append [] (c ∷ x) = refl
take-append (c ∷ t) x = ap (λ s. c ∷ s) (take-append t x)

format_message-append :
    (m : Message) (rest : Text) → format_message m ++ rest ≡ with_tail m (m.payload ++ rest)
unfolding format_message
format_message-append m rest = simp append_assoc

terminate-longer :
    (m : Message) (x : Text)
    → m.payload_length ≡ length m.payload
    → length m.payload < 2048
    → terminate (record m { payload = m.payload ++ x }) ≡ ok m
unfolding terminate
terminate-longer m x e h =
    rw (e, take-append m.payload x, lt→ltb (length m.payload) 2048 h) (rw (← e) refl)

-- Parsing the line of a message that can be sent gives that message, whatever follows the line in the
-- buffer: the length that the line declares cuts it off.
pub parse_message-behind :
    (old m : Message) (rest : Text)
    → IsSendable m
    → parse_message old (format_message m ++ rest) ≡ ok m
unfolding parse_message scan_payload store_payload
parse_message-behind old m rest is =
    let (x, scanned) =
      scan_set-longer b'\n' 2047 m.payload rest is.payload_clean is.payload_some
        (omega (arith, is.payload)) in
    rw
      (
        format_message-append m rest,
        scan_message-with_tail old m (m.payload ++ rest) is.addressed,
        scanned,
      )
      (terminate-longer m x.0 is.counted is.payload)
