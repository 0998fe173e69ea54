-- ===== src/Client/Handler/Uid.antt =====
-- The MESSAGE_UID branch of client/src/client_msg_handler.c: `username|uid` in the payload.
use secure_chat.Prelude.{
  ℕ, Bool, ◌&&◌, ◌≡◌, ◌≢◌, Option, none, some, [], ◌∷◌, ltb, if◌then◌else◌, arith, Text, text_eq,
  is_space, length, Run, ok, fault, out_of_bounds, uninitialised, null_pointer, ◌>>=◌,
}
use secure_chat.Protocol.Number.{skip_space}
use secure_chat.Protocol.Wire.{delimiter, scan_set}
use secure_chat.Client.{Client, client_default_name}

-- `%s`: what stands up to the next blank.
unfoldable pub word : Text → Text
word [] = []
word (c ∷ s) = let rest = word s in if is_space c then [] else c ∷ rest

-- `%*c`
unfoldable pub skip_char : Text → Text
skip_char [] = []
skip_char (c ∷ s) = s

-- A conversion that stored nothing leaves its array as it was on the stack; the arrays take 17 and
-- 129 bytes.
unfoldable pub fit : ℕ → Text → Run Text
fit size [] = fault uninitialised
fit size (c ∷ s) = if ltb (length (c ∷ s)) size then ok (c ∷ s) else fault out_of_bounds

unfoldable pub scan_username : Option (Text × Text) → Run (Text × Text)
scan_username none = fault uninitialised
scan_username (some (name, rest)) = do
  username ← fit 17 name
  uid ← fit 129 (word (skip_space (skip_char rest)))
  ok (username, uid)

-- A UID is taken only where none, or the default name, is there.
-- `malloc` tells whether there is memory for the UID; what it returns is not tested.
unfoldable pub assign_uid : Bool → Client → Text → Text → Run Client
assign_uid malloc cl username uid = elim cl.uid [
  | none ↦
      if text_eq cl.username username && malloc
      then ok (record cl { uid = some uid })
      else fault null_pointer
  | some old ↦
      if text_eq cl.username username
      then if text_eq old client_default_name
        then if malloc then ok (record cl { uid = some uid }) else fault null_pointer
        else ok cl
      else ok cl
]

unfoldable pub store_uid : Bool → Client → Text → Run Client
store_uid malloc cl payload = do
  r ← scan_username (scan_set delimiter (length payload) payload)
  assign_uid malloc cl r.0 r.1

pub assign_uid-keeps :
    (malloc : Bool) (cl cl' : Client) (u username uid : Text)
    → cl.uid ≡ some u
    → u ≢ client_default_name
    → assign_uid malloc cl username uid ≡ ok cl'
    → cl' ≡ cl
unfolding assign_uid
assign_uid-keeps malloc cl cl' u username uid e ne run = ground arith
