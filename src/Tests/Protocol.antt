-- ===== src/Tests/Protocol.antt =====
-- Examples of the theorems on messages.
use secure_chat.Prelude.{◌≡◌, refl, some, codes, replicate, ok, fault, out_of_bounds, arith}
use secure_chat.Protocol.Create.{message_creation_success}
use secure_chat.Protocol.Create.Bounds.{create_message-built}
use secure_chat.Tests.{
  test_env, test_hash, test_evp-IsSha512, test_uid, hello, blank, hello-IsSendable,
}
use secure_chat.Protocol.{Message}
use secure_chat.Protocol.Codes.{message_text}
use secure_chat.Protocol.Create.{null, text, create_message, create_in, message_creation_failure}
use secure_chat.Protocol.Create.Bounds.{
  IsSized, built, create_message-built, create_message-IsSized,
}
use secure_chat.Protocol.Create.Refusals.{create_message-overflow}
use secure_chat.Protocol.Wire.{format_message, parse_message}
use secure_chat.Protocol.Wire.RoundTrip.{IsAddressed, parse_message-format_message}
use secure_chat.Protocol.Wire.Safety.{Fits, parse_message-Fits, parse_message-overflow}

parse_message-format_message_example : parse_message blank (format_message hello) ≡ ok hello
parse_message-format_message_example = parse_message-format_message blank hello hello-IsSendable

parse_message-Fits_example : Fits blank hello
parse_message-Fits_example =
    parse_message-Fits blank hello (format_message hello)
      (parse_message-format_message blank hello hello-IsSendable)

abbrev long_hello : Message
long_hello = record hello { payload_length = 2048 }

long_hello-IsAddressed : IsAddressed long_hello
long_hello-IsAddressed = record {
  uid = omega arith;
  sender = omega arith;
  recipient = omega arith;
  int = omega arith;
  declared = omega arith;
  uid_some = omega arith;
  sender_some = omega arith;
  recipient_some = omega arith;
  uid_clean = (refl, (refl, tt));
  sender_clean = (refl, tt);
  recipient_clean = (refl, tt);
}

parse_message-overflow_example :
    parse_message blank (format_message long_hello) ≡ fault out_of_bounds
parse_message-overflow_example =
    parse_message-overflow blank long_hello long_hello-IsAddressed (omega arith)

hello-IsSized : IsSized hello
hello-IsSized = record {
  uid = omega arith;
  sender = omega arith;
  recipient = omega arith;
  payload = omega arith;
  counted = refl;
}

create_message-IsSized_example :
    IsSized (built test_uid message_text (codes "1") (codes "2") (codes "hi"))
    × (codes "hi" ≡ codes "hi")
    × (message_text ≡ message_text)
create_message-IsSized_example =
    create_message-IsSized test_env blank
      (built test_uid message_text (codes "1") (codes "2") (codes "hi")) message_text
      (text (codes "1")) (text (codes "2")) (codes "hi") test_evp-IsSha512
      (create_message-built test_env blank message_text (codes "1") (codes "2") (codes "hi")
        test_uid (test_hash (codes "hi")) (omega arith) (omega arith) (omega arith) (omega arith)
        (omega arith))

null_refused :
    create_message test_env (some hello) message_text null (text (codes "2")) (text (codes "hi"))
    ≡ ok (some hello, message_creation_failure)
unfolding create_message create_in
null_refused = refl

create_message-overflow_example :
    create_message test_env
      (some blank)
      message_text
      (text (codes "1"))
      (text (codes "2"))
      (text (replicate 2048 b'a'))
    ≡ fault out_of_bounds
create_message-overflow_example =
    create_message-overflow test_env blank message_text (codes "1") (codes "2")
      (replicate 2048 b'a') test_uid (test_hash (replicate 2048 b'a')) (omega arith) (omega arith)
      (omega arith) refl

create_message-built_example :
    create_message test_env
      (some blank)
      message_text
      (text (codes "1"))
      (text (codes "2"))
      (text (codes "hi"))
    ≡ ok (
      some (built test_uid message_text (codes "1") (codes "2") (codes "hi")),
      message_creation_success,
    )
create_message-built_example =
    create_message-built test_env blank message_text (codes "1") (codes "2") (codes "hi") test_uid
      (test_hash (codes "hi")) (omega arith) (omega arith) (omega arith) (omega arith) (omega arith)
