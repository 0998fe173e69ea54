-- ===== src/Tests/Cli.antt =====
-- Examples of the theorems on the command line.
use secure_chat.Prelude.{◌≡◌, refl, true, some, [], ◌∷◌, codes, Text, List, ltb, ok, Returns, arith}
use secure_chat.Protocol.Number.{pos}
use secure_chat.Protocol.Codes.{message_text}
use secure_chat.Protocol.Create.Bounds.{built}
use secure_chat.Server.{server_name}
use secure_chat.Cli.{unfinished, value, tokenize, srv_exec_line}
use secure_chat.Cli.Split.{AllWords}
use secure_chat.Cli.Ends.{tokenize-ends}
use secure_chat.Cli.Commands.{srv_exec_line-broadcast}
use secure_chat.Tests.{test_env, test_ssl, test_uid, test_hash, blank}
use secure_chat.Tests.Server.{server, clients-Reachable}

-- Not more than two pieces of memory for the tokens.
tokenize-ends_example :
    Returns (tokenize (λ n. ltb n 129) true (codes " !kick  1 ")) (λ r. ¬ (r ≡ unfinished))
tokenize-ends_example = tokenize-ends (λ n. ltb n 129) true (codes " !kick  1 ")

abbrev text_words : List Text
text_words = codes "hi" ∷ codes "all" ∷ []

words-AllWords : AllWords text_words
words-AllWords =
    ((omega arith, (refl, (refl, tt))), ((omega arith, (refl, (refl, (refl, tt)))), tt))

srv_exec_line-broadcast_example :
    srv_exec_line test_env test_ssl (some blank) true (λ n. true) (codes "!broadcast hi all") server
    ≡ ok (
      value (pos 1),
      record server {
        message_queue =
            built test_uid message_text server_name (codes "1") (codes "hi all")
            ∷ built test_uid message_text server_name (codes "2") (codes "hi all")
            ∷ [];
      },
    )
srv_exec_line-broadcast_example =
    srv_exec_line-broadcast test_env test_ssl blank (λ n. true) (codes "hi") (codes "all" ∷ [])
      test_uid server (λ n. refl) words-AllWords (test_hash (codes "hi all")) (omega arith)
      (omega arith) clients-Reachable
