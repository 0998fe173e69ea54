-- ===== src/Tests/Handshake.antt =====
-- Examples of the theorems on the end of an authentication.
use secure_chat.Prelude.{
  ◌≡◌, refl, true, false, some, [], Text, codes, replicate, length, ok, fault, out_of_bounds, ◌>>=◌,
  Returns, arith, ℕ, zero, suc,
}
use secure_chat.Protocol.Number.{print_int}
use secure_chat.Protocol.Wire.{format_message, delimiter}
use secure_chat.Protocol.Wire.Sendable.{IsIdentifier}
use secure_chat.Client.{initial_state}
use secure_chat.Client.Handler.{Session, returned}
use secure_chat.Client.Receive.{handle_line}
use secure_chat.Auth.Dialog.{Account, success}
use secure_chat.Auth.Turn.{start}
use secure_chat.Handshake.{
  code_of, admission, uid_payload, naming, takes, greets, IsAccount, IsBlankless,
}
use secure_chat.Handshake.Sent.{both_lines}
use secure_chat.Handshake.Taken.{let_in}
use secure_chat.Handshake.Agreed.{greets-agreed}
use secure_chat.Handshake.Spoilt.{split_name, handle_line-spoilt}
use secure_chat.Tests.{test_env, test_ssl, test_uid, test_hash, test_store, blank}
use secure_chat.Tests.Auth.{answers, steps}
use secure_chat.Tests.Client.{session_of}
use secure_chat.Tests.Input.{replicate-Avoids}

pub test-IsIdentifier : (payload : Text) → IsIdentifier test_env payload test_uid
test-IsIdentifier payload = record {
  hash = test_hash payload;
  wide = omega arith;
  not_empty = omega arith;
  clean = replicate-Avoids 128 b'1' delimiter refl;
}

-- The server's side: the structure of pointer 3 belongs to ann, with the UID 7.
abbrev account : Account answers
account = start answers steps (λ n. true) 3 test_store

abbrev guest : Session test_ssl
guest = session_of (codes "client") initial_state blank

ann-IsAccount : IsAccount (codes "ann") (codes "7")
ann-IsAccount = record {
  name_clean = (refl, (refl, (refl, tt)));
  name_line = (refl, (refl, (refl, tt)));
  name_some = omega arith;
  name_short = omega arith;
  uid_solid = (refl, tt);
  uid_some = omega arith;
  uid_short = omega arith;
}

greets-agreed_example :
    Returns
      (greets test_env test_ssl answers true 15 false
        (record { connection = []; msg = blank })
        account)
      (λ r.
        (r.0.connection
          ≡ both_lines test_env test_ssl [] false test_uid test_uid (codes "ann") (codes "7"))
        × (r.2 ≡ success))
    × ((takes test_env test_ssl (admission false test_uid) guest >>= λ r.
          takes test_env test_ssl (naming test_uid (codes "ann") (codes "7")) r.0)
        ≡ ok (
          record guest {
            msg = naming test_uid (codes "ann") (codes "7");
            cl = record guest.cl { uid = some (codes "7") };
            cl_state = let_in false initial_state;
          },
          returned,
        ))
unfolding start
greets-agreed_example =
    greets-agreed test_env test_ssl answers true 15 false (record { connection = []; msg = blank })
      account guest (codes "ann") (codes "7") test_uid test_uid refl refl ann-IsAccount
      (test-IsIdentifier (print_int (code_of false)))
      (test-IsIdentifier (uid_payload (codes "ann") (codes "7"))) refl refl refl refl

replicate-IsBlankless : (n : ℕ) → IsBlankless (replicate n b'1')
replicate-IsBlankless zero = tt
replicate-IsBlankless (suc n) = (refl, replicate-IsBlankless n)

abbrev waiting : Session test_ssl
waiting = session_of (codes "client") (record initial_state { is_authenticated = true }) blank

-- The name a|b.
handle_line-spoilt_example :
    handle_line test_env test_ssl
      (length (format_message (naming test_uid (split_name (codes "a") (codes "b")) test_uid)))
      (format_message (naming test_uid (split_name (codes "a") (codes "b")) test_uid))
      waiting
    ≡ fault out_of_bounds
handle_line-spoilt_example =
    handle_line-spoilt test_env test_ssl test_uid (codes "a") (codes "b") test_uid waiting
      (test-IsIdentifier (uid_payload (split_name (codes "a") (codes "b")) test_uid)) refl refl
      (refl, tt) (refl, tt) (omega arith) (omega arith) (refl, tt) (replicate-IsBlankless 128) refl
