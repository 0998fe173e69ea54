-- ===== src/Cli/Commands.antt =====
-- What a line of the command line does to the server.
use secure_chat.Prelude.{
  ℕ, ◌+◌, ◌≤◌, ◌<◌, ◌≡◌, refl, ap, ◌∙◌, Bool, true, lt→ltb, some, List, [], ◌∷◌, ◌++◌, length,
  length-append, Text, codes, ok, arith,
}
use mathlib.Core.List.{append-nil, append_assoc}
use secure_chat.HashMap.Walk.{all_nodes}
use secure_chat.Protocol.{Message}
use secure_chat.Protocol.Number.{pos}
use secure_chat.Protocol.Codes.{message_text}
use secure_chat.Protocol.Hash.{get_hash}
use secure_chat.Protocol.Create.{Env, uid_before_hash}
use secure_chat.Protocol.Create.Bounds.{built}
use secure_chat.Protocol.Wire.{Ssl}
use secure_chat.Server.{Server, server_name}
use secure_chat.Server.Broadcast.{Reachable, letters, broadcast-letters}
use secure_chat.Cli.{
  srv_delim, value, find_command, total_length, strcat, concatenate, srv_broadcast, run_command,
  dispatch_command, srv_exec_line,
}
use secure_chat.Cli.Split.{IsWord, AllWords, join, length-join, tokenize-join}

total_length-join : (n : ℕ) (ts : List Text) → n + length (join ts) ≤ total_length n ts
unfolding total_length
total_length-join n [] = omega arith
total_length-join n (t ∷ []) = omega arith
total_length-join n (t ∷ (u ∷ ts)) = omega (
  arith,
  total_length-join (n + length t + 1) (u ∷ ts),
  length-append t (srv_delim ∷ join (u ∷ ts)),
)

strcat-fits : (size : ℕ) (s t : Text) → length s + length t < size → strcat size s t ≡ ok (s ++ t)
unfolding strcat
strcat-fits size s t h = rw (lt→ltb (length s + length t) size h) refl

concatenate-join :
    (size : ℕ) (s : Text) (ts : List Text)
    → length s + length (join ts) < size
    → concatenate size s ts ≡ ok (s ++ join ts)
unfolding concatenate
concatenate-join size s [] h = rw (append-nil s) refl
concatenate-join size s (t ∷ []) h = strcat-fits size s t h
concatenate-join size s (t ∷ (u ∷ ts)) h =
    let long = length-append t (srv_delim ∷ join (u ∷ ts)) in
    let first = strcat-fits size s t (omega (arith, long)) in
    let blank =
      strcat-fits size (s ++ t) (srv_delim ∷ []) (omega (arith, long, length-append s t)) in
    let rest =
      concatenate-join size ((s ++ t) ++ (srv_delim ∷ [])) (u ∷ ts)
        (omega (arith, long, length-append s t, length-append (s ++ t) (srv_delim ∷ []))) in
    let tail = srv_delim ∷ join (u ∷ ts) in
    let joined = append_assoc (s ++ t) (srv_delim ∷ []) (join (u ∷ ts)) ∙ append_assoc s t tail in
    rw (first, blank, rest) (ap ok joined)

abbrev pub broadcast_command : Text
broadcast_command = codes "!broadcast"

broadcast_command-IsWord : IsWord broadcast_command
broadcast_command-IsWord = (
  omega arith,
  (refl, (refl, (refl, (refl, (refl, (refl, (refl, (refl, (refl, (refl, tt)))))))))),
)

-- A line `!broadcast` with words behind it puts those words, with one blank between them, for every
-- ready client at the end of the queue, in the order of the table, and changes nothing else, where
-- the memory is there, the hash too, each client has a UID that passes the length test and the text has
-- 1 to 2047 bytes. Neither the array of the tokens nor the joined text overflows, however many
-- words there are.
pub srv_exec_line-broadcast :
    (env : Env) (ssl : Ssl) (fresh : Message) (grows : ℕ → Bool) (w : Text) (ws : List Text)
    (uid : Text) (srv : Server ssl)
    → ((n : ℕ) → grows n ≡ true)
    → AllWords (w ∷ ws)
    → get_hash env.evp (uid_before_hash env (join (w ∷ ws))) ≡ some uid
    → length uid ≤ 128
    → length (join (w ∷ ws)) < 2048
    → Reachable srv.clients (all_nodes srv.client_map.hash_table)
    → srv_exec_line env ssl (some fresh) true grows (join (broadcast_command ∷ (w ∷ ws))) srv
      ≡ ok (
        value (pos 1),
        record srv {
          message_queue =
              srv.message_queue
              ++ letters srv.clients
                  (all_nodes srv.client_map.hash_table)
                  (λ u. built uid message_text server_name u (join (w ∷ ws)));
        },
      )
unfolding srv_exec_line dispatch_command find_command run_command srv_broadcast
srv_exec_line-broadcast env ssl fresh grows w ws uid srv memory words hash fits short reach =
    let tokens =
      tokenize-join grows memory (broadcast_command ∷ (w ∷ ws)) (broadcast_command-IsWord, words) in
    let joined =
      concatenate-join (total_length 1 (w ∷ ws)) [] (w ∷ ws)
        (omega (arith, total_length-join 1 (w ∷ ws))) in
    let sent =
      broadcast-letters env ssl fresh (join (w ∷ ws)) uid srv hash fits
        (omega (arith, length-join (w ∷ ws) words)) short reach in
    rw tokens (rw joined (rw sent refl))
