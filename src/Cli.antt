-- ===== src/Cli.antt =====
-- The command line of the server: srv_exec_line of server/src/server_cli.c, and the commands of
-- server/src/server.c that it calls. What they print is left out.
pub mod Split
pub mod Ends
pub mod Commands
use secure_chat.Prelude.{
  ℕ, zero, suc, ◌+◌, ◌==◌, ltb, leb, Bool, true, false, Option, none, some, List, [], ◌∷◌, ◌++◌,
  length, if◌then◌else◌, Text, codes, text_eq, Run, ok, fault, out_of_bounds, ◌>>=◌,
}
use secure_chat.Protocol.{Message}
use secure_chat.Protocol.Number.{ℤ, pos, negsuc}
use secure_chat.Protocol.Create.{Env}
use secure_chat.Protocol.Wire.{Ssl}
use secure_chat.Server.{Server, srv_kick, srv_kick_all, broadcast}

-- SRV_BUFSIZE
abbrev pub srv_bufsize : ℕ
srv_bufsize = 64

-- SRV_DELIM
abbrev pub srv_delim : ℕ
srv_delim = b' '

-- `strtok`: behind the blanks, up to the next one; `none` is NULL.
unfoldable pub skip_blanks : Text → Text
skip_blanks [] = []
skip_blanks (c ∷ s) = let rest = skip_blanks s in if c == srv_delim then rest else c ∷ s

unfoldable pub take_word : Text → Text × Text
take_word [] = ([], [])
take_word (c ∷ s) =
    let rest = take_word s in if c == srv_delim then ([], s) else (c ∷ rest.0, rest.1)

unfoldable pub first_word : Text → Option (Text × Text)
first_word [] = none
first_word (c ∷ s) = some (take_word (c ∷ s))

unfoldable pub strtok : Text → Option (Text × Text)
strtok s = first_word (skip_blanks s)

-- A value, or the end of the process by `exit`; `unfinished` stands for a loop without fuel.
pub data Ended {ℓ} (A : Type ℓ) : Type ℓ where
  unfinished : Ended A
  exits : ℕ → Ended A
  value : A → Ended A

-- What comes next, unless the process has ended.
abbrev pub and_then {ℓ κ} :
    {A : Type ℓ} {B : Type κ} → Ended A → (A → Run (Ended B)) → Run (Ended B)
and_then unfinished next = ok unfinished
and_then (exits code) next = ok (exits code)
and_then (value a) next = next a

-- The array of the tokens: those that were stored, and its size.
pub record Tokens : Type 0 where
  pub tokens : List Text
  pub size : ℕ

-- `tokens[i] = token` and `i++`
unfoldable pub store_token : Text → Tokens → Run Tokens
store_token t a =
    if ltb (length a.tokens) a.size
    then ok (record a { tokens = a.tokens ++ (t ∷ []) })
    else fault out_of_bounds

-- `grows` tells whether `realloc` gives so many elements.
module _ (grows : ℕ → Bool) where
  unfoldable pub grow : Tokens → Ended Tokens
  grow a =
      if leb a.size (length a.tokens)
      then if grows (a.size + srv_bufsize)
        then value (record a { size = a.size + srv_bufsize })
        else exits 1
      else value a

  -- The loop on fuel: every turn takes a byte of the line at least.
  unfoldable pub token_loop : ℕ → Option (Text × Text) → Tokens → Run (Ended Tokens)
  token_loop fuel none a = ok (value a)
  token_loop zero (some (t, rest)) a = ok unfinished
  token_loop (suc fuel) (some (t, rest)) a =
      store_token t a >>= λ b. and_then (grow b) (λ c. token_loop fuel (strtok rest) c)

  -- The tokens in front of the NULL that is stored behind them.
  unfoldable pub terminated : Tokens → Run (Ended (List Text))
  terminated a = if ltb (length a.tokens) a.size then ok (value a.tokens) else fault out_of_bounds

  unfoldable pub tokenize : Bool → Text → Run (Ended (List Text))
  tokenize memory line =
      if memory
      then (token_loop (length line) (strtok line) (record { tokens = []; size = srv_bufsize })
          >>= λ a. and_then a terminated)
      else ok (exits 1)

-- The functions of the table of the commands.
pub data Command : Type 0 where
  run_exit run_history run_clear run_list run_ban run_mute run_kick run_kick_all : Command
  run_broadcast run_help : Command

abbrev pub srv_commands : List (Text × Command)
srv_commands =
    (codes "!exit", run_exit)
    ∷ (codes "!quit", run_exit)
    ∷ (codes "!stop", run_exit)
    ∷ (codes "!shutdown", run_exit)
    ∷ (codes "!history", run_history)
    ∷ (codes "!clear", run_clear)
    ∷ (codes "!list", run_list)
    ∷ (codes "!ban", run_ban)
    ∷ (codes "!mute", run_mute)
    ∷ (codes "!kick", run_kick)
    ∷ (codes "!kickall", run_kick_all)
    ∷ (codes "!broadcast", run_broadcast)
    ∷ (codes "!help", run_help)
    ∷ []

unfoldable pub find_command : Text → List (Text × Command) → Option Command
find_command name [] = none
find_command name ((n, c) ∷ cs) =
    let rest = find_command name cs in if text_eq name n then some c else rest

-- The size of the memory for the joined arguments of `srv_broadcast`.
unfoldable pub total_length : ℕ → List Text → ℕ
total_length n [] = n
total_length n (t ∷ ts) = total_length (n + length t + 1) ts

-- `strcat` into `size` bytes
unfoldable pub strcat : ℕ → Text → Text → Run Text
strcat size s t = if ltb (length s + length t) size then ok (s ++ t) else fault out_of_bounds

unfoldable pub concatenate : ℕ → Text → List Text → Run Text
concatenate size s [] = ok s
concatenate size s (t ∷ []) = strcat size s t
concatenate size s (t ∷ (u ∷ ts)) =
    strcat size s t >>= λ s1. strcat size s1 (srv_delim ∷ []) >>= λ s2. concatenate size s2 (u ∷ ts)

-- `malloc` is that of the messages, `memory` that of the commands.
module _ (env : Env) (ssl : Ssl) (malloc : Option Message) (memory : Bool) where
  abbrev pub Executed : Type 0
  Executed = Run (Ended ℤ × Server ssl)

  unfoldable pub srv_broadcast : List Text → Server ssl → Executed
  srv_broadcast [] srv = ok (value (negsuc 0), srv)
  srv_broadcast (t ∷ ts) srv =
      if memory
      then (do
        payload ← concatenate (total_length 1 (t ∷ ts)) [] (t ∷ ts)
        srv1 ← broadcast env ssl malloc payload srv
        ok (value (pos 1), srv1))
      else ok (value (negsuc 0), srv)

  unfoldable pub kick_command : List Text → Server ssl → Executed
  kick_command [] srv = ok (value (negsuc 0), srv)
  kick_command (uid ∷ more) srv =
      if memory
      then (srv_kick env ssl malloc uid srv >>= λ srv1. ok (value (pos 1), srv1))
      else ok (value (negsuc 0), srv)

  -- `srv_ban` and `srv_mute` do nothing with their argument yet.
  unfoldable pub unimplemented : List Text → Server ssl → Executed
  unimplemented [] srv = ok (value (negsuc 0), srv)
  unimplemented (uid ∷ more) srv = ok (value (pos 1), srv)

  unfoldable pub run_command : Command → List Text → Server ssl → Executed
  run_command run_exit args srv = ok (exits 0, srv)
  run_command run_history args srv = ok (value (pos 1), srv)
  run_command run_clear args srv = ok (value (pos 1), srv)
  run_command run_list args srv = ok (value (pos 1), srv)
  run_command run_ban args srv = unimplemented args srv
  run_command run_mute args srv = unimplemented args srv
  run_command run_kick args srv = kick_command args srv
  run_command run_kick_all args srv =
      srv_kick_all env ssl malloc srv >>= λ srv1. ok (value (pos 1), srv1)
  run_command run_broadcast args srv = srv_broadcast args srv
  run_command run_help args srv = ok (value (pos 1), srv)

  unfoldable pub dispatch_command : Ended (List Text) → Server ssl → Executed
  dispatch_command unfinished srv = ok (unfinished, srv)
  dispatch_command (exits code) srv = ok (exits code, srv)
  dispatch_command (value []) srv = ok (value (pos 1), srv)
  dispatch_command (value (command ∷ args)) srv = elim (find_command command srv_commands) [
    | none ↦ ok (value (pos 1), srv)
    | some c ↦ run_command c args srv
  ]

  unfoldable pub srv_exec_line : (ℕ → Bool) → Text → Server ssl → Executed
  srv_exec_line grows line srv =
      tokenize grows memory line >>= λ tokens. dispatch_command tokens srv
