-- ===== src/Protocol/Wire/Sendable.antt =====
-- Messages that create_message has built and that the line of send_message can carry.
use secure_chat.Prelude.{◌≤◌, ◌<◌, ◌≡◌, refl, some, Text, Avoids, length, take_all, arith}
use secure_chat.Protocol.{Message, buffer_size}
use secure_chat.Protocol.Number.{ℤ}
use secure_chat.Protocol.Number.RoundTrip.{IsInt}
use secure_chat.Protocol.Hash.{get_hash}
use secure_chat.Protocol.Create.{Env, uid_before_hash}
use secure_chat.Protocol.Create.Bounds.{built, IsSized}
use secure_chat.Protocol.Wire.{delimiter, format_message}
use secure_chat.Protocol.Wire.Send.{length-format_message}
use secure_chat.Protocol.Wire.RoundTrip.{IsSendable}

-- The identifier that the digest gives to a message with this payload.
pub record IsIdentifier (env : Env) (payload id : Text) : Type 0 where
  pub hash : get_hash env.evp (uid_before_hash env payload) ≡ some id
  pub wide : length id ≤ 128
  pub not_empty : 0 < length id
  pub clean : Avoids delimiter id

-- A sender or a recipient of 1 to 128 bytes without the delimiter.
pub record IsName (name : Text) : Type 0 where
  pub wide : length name ≤ 128
  pub not_empty : 0 < length name
  pub clean : Avoids delimiter name

pub built-IsSendable :
    (env : Env) (type : ℤ) (id s r p : Text)
    → IsIdentifier env p id
    → IsInt type
    → IsName s
    → IsName r
    → 0 < length p
    → length p < 2048
    → Avoids b'\n' p
    → IsSendable (built id type s r p)
built-IsSendable env type id s r p is int sender recipient some_bytes short clean =
    let whole_s = take_all 128 s sender.wide in
    let whole_r = take_all 128 r recipient.wide in
    record {
      addressed = record {
        uid = is.wide;
        sender = rw whole_s sender.wide;
        recipient = rw whole_r recipient.wide;
        int = int;
        declared = omega arith;
        uid_some = is.not_empty;
        sender_some = rw whole_s sender.not_empty;
        recipient_some = rw whole_r recipient.not_empty;
        uid_clean = is.clean;
        sender_clean = rw whole_s sender.clean;
        recipient_clean = rw whole_r recipient.clean;
      };
      payload = short;
      counted = refl;
      payload_some = some_bytes;
      payload_clean = clean;
    }

-- The line fits the buffer that it is read into.
pub sendable_is_short : (m : Message) → IsSendable m → length (format_message m) < buffer_size
sendable_is_short m is =
    let sized : IsSized m = record {
      uid = is.addressed.uid;
      sender = is.addressed.sender;
      recipient = is.addressed.recipient;
      payload = is.payload;
      counted = is.counted;
    } in
    omega (arith, length-format_message m sized is.addressed.int)
