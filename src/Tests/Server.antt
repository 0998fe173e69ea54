-- ===== src/Tests/Server.antt =====
-- Examples of the theorems on the server.
use secure_chat.Prelude.{
  length, ◌<◌, ◌++◌, codes, leb, fault, bad_pointer, ℕ, zero, suc, get_or, ◌≡◌, refl, ◌∷◌, [], some,
  codes, ok, fault, deadlock, arith, true, ◌>>=◌,
}
use secure_chat.Tests.{
  test_env, test_ssl, test_uid, test_hash, hello, blank, hello-IsSendable, test_store, two_clients,
  two_clients-IsValid,
}
use secure_chat.Connection.{Ptr}
use secure_chat.HashMap.{HashMap, find_chain, fields_of}
use secure_chat.HashMap.Strtoul.{strtoul}
use secure_chat.HashMap.Chains.{IsChain}
use secure_chat.HashMap.Table.{IsValid, lookup}
use secure_chat.Protocol.Create.Bounds.{IsSized}
use secure_chat.Protocol.Wire.{format_message}
use secure_chat.Server.{Server, receive, handle_queued, route, kick_all_unresponsive}
use secure_chat.Server.Broadcast.{Reachable}
use secure_chat.Server.Kick.{kick_all_unresponsive-deadlock}
use secure_chat.Server.Receive.{receive-relayed}
use secure_chat.Protocol.{buffer_size}
use secure_chat.Server.Line.{IsLogged, received_line}
use secure_chat.Protocol.Number.{print_int, decimal, decimal_loop}
use secure_chat.Tests.{avoids?, avoids?-Avoids}
use secure_chat.Server.Route.{delivered}

abbrev pub server : Server test_ssl
server = record {
  client_map = two_clients;
  clients = test_store;
  message_queue = [];
  connection = λ r. [];
}

second_found : lookup test_store two_clients (codes "2") ≡ some 2
unfolding find_chain fields_of strtoul
second_found = refl

hello_held : length (format_message hello ++ codes "lo") < buffer_size
unfolding format_message print_int decimal decimal_loop
hello_held = omega arith

hello-IsLogged : IsLogged (test_store 1).id hello
unfolding print_int decimal decimal_loop avoids?
hello-IsLogged = record {
  short = omega arith;
  plain = avoids?-Avoids b'%' (received_line (test_store 1).id hello) refl;
}

-- The buffer holds the end of a longer line; the pointers from 8 on are those of the heap.
receive-relayed_example :
    (r : Ptr) × ((test_store 2).req ≡ some r)
    × ((receive test_env test_ssl true 1 (format_message hello ++ codes "lo") blank server >>= λ t.
          route test_ssl 9 hello (record t.0 { message_queue = [] }))
        ≡ ok (delivered test_ssl hello 2 r server, 2))
    × ((receive test_env test_ssl true 1 (format_message hello ++ codes "lo") blank server >>= λ t.
          handle_queued test_ssl (λ p. leb 8 p) true (some 9) t.0)
        ≡ fault bad_pointer)
receive-relayed_example =
    receive-relayed test_env test_ssl 1 hello blank (codes "lo") server (λ p. leb 8 p) 9 2
      hello-IsSendable refl refl hello_held hello-IsLogged refl two_clients-IsValid second_found
      refl

hello-IsSized : IsSized hello
hello-IsSized = record {
  uid = omega arith;
  sender = omega arith;
  recipient = omega arith;
  payload = omega arith;
  counted = refl;
}

pub clients-Reachable : Reachable test_store (some 1 ∷ some 2 ∷ [])
clients-Reachable =
    ((1, codes "1", refl, refl, omega arith), ((2, codes "2", refl, refl, omega arith), tt))

-- A table with one client, who left a PING open.
abbrev one_client : HashMap
one_client = record { hash_size = 1; hash_table = (some 3 ∷ []) ∷ []; current_elements = 1 }

one_client-IsChain : (i : ℕ) → IsChain test_store 1 i (get_or one_client.hash_table i [])
unfolding fields_of find_chain strtoul
one_client-IsChain zero = ((codes "7", refl, refl, refl), tt)
one_client-IsChain (suc zero) = tt
one_client-IsChain (suc (suc i)) = tt

one_client-IsValid : IsValid test_store one_client
one_client-IsValid = record {
  positive = omega arith;
  width = refl;
  chains = one_client-IsChain;
  counted = refl;
  small = omega arith;
}

kick_all_unresponsive-deadlock_example :
    kick_all_unresponsive test_env test_ssl (some blank) (record server { client_map = one_client })
    ≡ fault deadlock
kick_all_unresponsive-deadlock_example =
    kick_all_unresponsive-deadlock test_env test_ssl blank test_uid
      (record server { client_map = one_client }) (test_hash (codes "QUIT")) (omega arith)
      one_client-IsValid ((3, codes "7", refl, refl, omega arith), tt)
