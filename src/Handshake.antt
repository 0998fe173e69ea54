-- ===== src/Handshake.antt =====
-- The end of an authentication on both sides: the two messages by which user_auth of
-- server/src/server_auth.c lets a client in, behind a login or a registration, and what handle_message of
-- client/src/client_msg_handler.c makes of them.
pub mod Sent
pub mod Words
pub mod Taken
pub mod Agreed
pub mod Spoilt
use secure_chat.Prelude.{
  ℕ, ◌≤◌, ◌<◌, ◌≡◌, Bool, true, false, some, [], ◌∷◌, ◌++◌, Text, Avoids, length, is_space, Run,
}
use secure_chat.Connection.{Ptr}
use secure_chat.Protocol.{Message}
use secure_chat.Protocol.Number.{ℤ, print_int}
use secure_chat.Protocol.Codes.{
  message_auth, message_uid, message_code_user_authenticated, message_code_user_created,
}
use secure_chat.Protocol.Hash.{get_hash}
use secure_chat.Protocol.Create.{Env, uid_before_hash}
use secure_chat.Protocol.Create.Bounds.{built}
use secure_chat.Protocol.Wire.{Ssl, delimiter, format_message}
use secure_chat.Client.{client_default_name}
use secure_chat.Client.Handler.{Session, Ending, server_name}
use secure_chat.Client.Receive.{handle_line}
use secure_chat.Auth.Dialog.{Db, Wire, Account, Turn}
use secure_chat.Auth.Login.{greet_user}
use secure_chat.Auth.Register.{welcome_user}

-- The code of the first message: behind a registration where `fresh`.
abbrev pub code_of : Bool → ℤ
code_of false = message_code_user_authenticated
code_of true = message_code_user_created

abbrev pub admission : Bool → Text → Message
admission fresh id =
    built id message_auth server_name client_default_name (print_int (code_of fresh))

abbrev pub uid_payload : Text → Text → Text
uid_payload name uid = name ++ (delimiter ∷ uid)

abbrev pub naming : Text → Text → Text → Message
naming id name uid = built id message_uid server_name client_default_name (uid_payload name uid)

-- The server's side.
abbrev pub greets :
    (env : Env) (ssl : Ssl) (db : Db)
    → Bool
    → Ptr
    → Bool
    → Wire ssl
    → Account db
    → Run (Wire ssl × Account db × Turn)
greets env ssl db malloc req false = greet_user env ssl db malloc req
greets env ssl db malloc req true = welcome_user env ssl db malloc req

-- No byte of the text is a blank.
abbrev pub IsBlankless : Text → Type 0
IsBlankless [] = Unit {0}
IsBlankless (c ∷ s) = (is_space c ≡ false) × IsBlankless s

-- A name and a UID as the server keeps them: the name has at most 15 bytes, no delimiter and no newline,
-- the UID at most 128, and no blank.
pub record IsAccount (name uid : Text) : Type 0 where
  pub name_clean : Avoids delimiter name
  pub name_line : Avoids b'\n' name
  pub name_some : 0 < length name
  pub name_short : length name ≤ 15
  pub uid_solid : IsBlankless uid
  pub uid_some : 0 < length uid
  pub uid_short : length uid ≤ 128

-- The client behind a read of the line of `m`, and of nothing else.
abbrev pub takes : (env : Env) (ssl : Ssl) → Message → Session ssl → Run (Session ssl × Ending)
takes env ssl m s = handle_line env ssl (length (format_message m)) (format_message m) s
