-- ===== src/Tests.antt =====
-- The data that the examples share.
pub mod Protocol
pub mod Table
pub mod Queue
pub mod Client
pub mod Server
pub mod Log
pub mod Database
pub mod Auth
pub mod Accept
pub mod Cli
pub mod Session
pub mod Link
pub mod Input
pub mod Heartbeat
pub mod Tls
pub mod Startup
pub mod Handshake
use secure_chat.Prelude.{
  Bool, not, ◌&&◌, Avoids, ℕ, zero, suc, ◌+◌, ◌≡◌, refl, true, false, ◌==◌, if◌then◌else◌, Option,
  some, [], ◌∷◌, Text, codes, replicate, get_or, arith,
}
use secure_chat.Protocol.{Message}
use secure_chat.Connection.{Ptr, ClientConnection, Store}
use secure_chat.HashMap.{HashMap, fields_of, find_chain}
use secure_chat.HashMap.Strtoul.{strtoul}
use secure_chat.HashMap.Chains.{IsChain}
use secure_chat.HashMap.Table.{IsValid}
use secure_chat.Protocol.Number.{ℤ, pos}
use secure_chat.Protocol.Codes.{message_text}
use secure_chat.Protocol.Hash.{Evp, IsSha512, hex, get_hash}
use secure_chat.Protocol.Create.{Env, uid_before_hash}
use secure_chat.Protocol.Wire.{Ssl, other}
use secure_chat.Protocol.Wire.RoundTrip.{IsAddressed, IsSendable}

-- A digest of 64 equal bytes.
abbrev pub test_evp : Evp
test_evp = record {
  ctx_new = true;
  init = true;
  update = λ s. true;
  final = λ s. some (replicate 64 17);
}

pub test_evp-IsSha512 : IsSha512 test_evp
test_evp-IsSha512 = record { wide = λ s d e. ground arith }

abbrev pub test_uid : Text
test_uid = replicate 128 b'1'

abbrev pub test_env : Env
test_env = record { evp = test_evp; timestamp = codes "20260101000000"; uid_memory = true }

pub test_hash : (p : Text) → get_hash test_env.evp (uid_before_hash test_env p) ≡ some test_uid
unfolding get_hash hex
test_hash p = refl

-- A connection that takes everything and keeps the last line.
abbrev pub test_ssl : Ssl
test_ssl = record {
  State = Text;
  write = λ old line. (pos 1, line);
  read = λ old. (some old, old);
  get_error = λ old code. other;
}

abbrev pub hello : Message
hello = record {
  message_uid = codes "ab";
  type = message_text;
  sender_uid = codes "1";
  recipient_uid = codes "2";
  payload_length = 2;
  payload = codes "hi";
}

abbrev pub blank : Message
blank = record {
  message_uid = [];
  type = pos 0;
  sender_uid = [];
  recipient_uid = [];
  payload_length = 0;
  payload = [];
}

pub hello-IsAddressed : IsAddressed hello
hello-IsAddressed = record {
  uid = omega arith;
  sender = omega arith;
  recipient = omega arith;
  int = omega arith;
  declared = omega arith;
  uid_some = omega arith;
  sender_some = omega arith;
  recipient_some = omega arith;
  uid_clean = (refl, (refl, tt));
  sender_clean = (refl, tt);
  recipient_clean = (refl, tt);
}

pub hello-IsSendable : IsSendable hello
hello-IsSendable = record {
  addressed = hello-IsAddressed;
  payload = omega arith;
  counted = refl;
  payload_some = omega arith;
  payload_clean = (refl, (refl, tt));
}

-- Two clients that are logged in; pointer 3 is a third connection.
abbrev pub test_client : Text → Ptr → ClientConnection
test_client uid request = record {
  req = some request;
  id = pos 0;
  uid = some uid;
  username = codes "ann";
  is_ready = true;
  is_inserted = true;
  ping_sent = false;
}

abbrev pub test_store : Store
test_store p =
    if p == 1
    then test_client (codes "1") 11
    else if p == 2
    then test_client (codes "2") 12
    else record (test_client (codes "7") 13) { ping_sent = true }

abbrev pub two_clients : HashMap
two_clients = record {
  hash_size = 4;
  hash_table = [] ∷ (some 1 ∷ []) ∷ (some 2 ∷ []) ∷ [] ∷ [];
  current_elements = 2;
}

two_clients-IsChain : (i : ℕ) → IsChain test_store 4 i (get_or two_clients.hash_table i [])
unfolding fields_of strtoul find_chain
two_clients-IsChain zero = tt
two_clients-IsChain (suc zero) = ((codes "1", refl, refl, refl), tt)
two_clients-IsChain (suc (suc zero)) = ((codes "2", refl, refl, refl), tt)
two_clients-IsChain (suc (suc (suc zero))) = tt
two_clients-IsChain (suc (suc (suc (suc i)))) = tt

pub two_clients-IsValid : IsValid test_store two_clients
two_clients-IsValid = record {
  positive = omega arith;
  width = refl;
  chains = two_clients-IsChain;
  counted = refl;
  small = omega arith;
}

unfoldable pub avoids? : ℕ → Text → Bool
avoids? stop [] = true
avoids? stop (c ∷ s) = not (c == stop) && avoids? stop s

pub avoids?-Avoids : (stop : ℕ) (s : Text) → avoids? stop s ≡ true → Avoids stop s
unfolding avoids?
avoids?-Avoids stop [] e = tt
avoids?-Avoids stop (c ∷ s) e = (ground arith, avoids?-Avoids stop s (ground arith))
