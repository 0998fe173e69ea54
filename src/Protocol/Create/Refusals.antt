-- ===== src/Protocol/Create/Refusals.antt =====
-- What `create_message` refuses, and where it writes behind the payload.
use secure_chat.Prelude.{
  ℕ, ◌≤◌, ◌≡◌, ◌≢◌, ◌⊎◌, some, [], arith, Text, length, ok, fault, out_of_bounds,
}
use secure_chat.Protocol.{Message}
use secure_chat.Protocol.Number.{ℤ}
use secure_chat.Protocol.Hash.{get_hash}
use secure_chat.Protocol.Create.Bounds.{terminate-fault}
use secure_chat.Protocol.Create.{
  Arg, null, text, Env, clear, uid_before_hash, build, create_in, create_message,
  message_creation_success, message_creation_payload_empty, message_creation_hash_failure,
}

-- A message with no payload is refused whatever its type is, PING and ACK included, and left alone.
pub create_message-empty :
    (env : Env) (m : Message) (type : ℤ) (s r : Text)
    → length s ≤ 129
    → length r ≤ 129
    → (create_message env (some m) type (text s) (text r) (text [])
        ≡ ok (some m, message_creation_payload_empty))
      × (create_message env (some m) type (text s) (text r) null
          ≡ ok (some m, message_creation_payload_empty))
unfolding create_message create_in
create_message-empty env m type s r hs hr = ground arith

build-code :
    (env : Env) (m m' : Message) (type : ℤ) (sender recipient payload : Arg) (code : ℕ)
    → build env m type sender recipient payload ≡ ok (m', code)
    → (code ≡ message_creation_success) ⊎ (code ≡ message_creation_hash_failure)
unfolding build
build-code env m m' type sender recipient payload code e = ground arith

-- A call that refuses before it hashes leaves the message as it was.
pub create_message-unchanged :
    (env : Env) (m m' : Message) (type : ℤ) (sender recipient payload : Arg) (code : ℕ)
    → create_message env (some m) type sender recipient payload ≡ ok (some m', code)
    → code ≢ message_creation_success
    → code ≢ message_creation_hash_failure
    → m' ≡ m
unfolding create_message create_in
create_message-unchanged env m m' type sender recipient payload code e h1 h2 =
    ground (arith, build-code env (clear m) m' type sender recipient payload code)

-- A payload of exactly MAX_PAYLOAD_SIZE bytes passes the size test, and its NUL is written one byte
-- behind the array.
pub create_message-overflow :
    (env : Env) (m : Message) (type : ℤ) (s r p uid : Text)
    → get_hash env.evp (uid_before_hash env p) ≡ some uid
    → length uid ≤ 128
    → length s ≤ 129
    → length r ≤ 129
    → length p ≡ 2048
    → create_message env (some m) type (text s) (text r) (text p) ≡ fault out_of_bounds
unfolding create_message create_in build
create_message-overflow env m type s r p uid hash hu hs hr hp =
    ground (arith, terminate-fault (clear m) uid type (text s) (text r) p)
