-- ===== src/Protocol/Names.antt =====
-- The texts that common/src/protocol.c gives the enumerations.
use secure_chat.Prelude.{List, [], ◌∷◌, if◌then◌else◌, Text, codes, snprintf}
use secure_chat.Protocol.Number.{ℤ, print_int}
use secure_chat.Protocol.Codes.{
  int_eq, message_ack, message_auth, message_auth_attemps, message_broadcast, message_choice,
  message_code_broadcast, message_code_enter_password, message_code_enter_password_confirmation,
  message_code_enter_username, message_code_invalid_password, message_code_invalid_username,
  message_code_passwords_do_not_match, message_code_try_again, message_code_uid,
  message_code_user_already_online, message_code_user_authenticated,
  message_code_user_authentication_attempts_exceeded, message_code_user_authentication_attempts_one,
  message_code_user_authentication_attempts_three, message_code_user_authentication_attempts_two,
  message_code_user_authentication_failure, message_code_user_authentication_success,
  message_code_user_created, message_code_user_does_not_exist, message_code_user_join,
  message_code_user_leave, message_code_user_register_choice, message_code_user_register_info,
  message_code_welcome, message_error, message_notification, message_ping, message_signal,
  message_system, message_text, message_text_aes_encrypted, message_text_rsa_encrypted,
  message_toast, message_uid, message_user_join, message_user_leave,
}

abbrev unknown : Text
unknown = codes "UNKNOWN"

-- A `switch` with one `return` a case; the end of the table is `default`.
select : List (ℤ × Text) → ℤ → Text
select [] z = unknown
select ((k, text) ∷ cases) z = let rest = select cases z in if int_eq z k then text else rest

abbrev type_cases : List (ℤ × Text)
type_cases =
    (message_text, codes "MESSAGE_TEXT")
    ∷ (message_toast, codes "MESSAGE_TOAST")
    ∷ (message_choice, codes "MESSAGE_CHOICE")
    ∷ (message_notification, codes "MESSAGE_NOTIFICATION")
    ∷ (message_broadcast, codes "MESSAGE_BROADCAST")
    ∷ (message_text_rsa_encrypted, codes "MESSAGE_TEXT_RSA_ENCRYPTED")
    ∷ (message_text_aes_encrypted, codes "MESSAGE_TEXT_AES_ENCRYPTED")
    ∷ (message_ping, codes "MESSAGE_PING")
    ∷ (message_ack, codes "MESSAGE_ACK")
    ∷ (message_signal, codes "MESSAGE_SIGNAL")
    ∷ (message_auth, codes "MESSAGE_AUTH")
    ∷ (message_auth_attemps, codes "MESSAGE_AUTH_ATTEMPS")
    ∷ (message_uid, codes "MESSAGE_UID")
    ∷ (message_error, codes "MESSAGE_ERROR")
    ∷ (message_user_join, codes "MESSAGE_USER_JOIN")
    ∷ (message_user_leave, codes "MESSAGE_USER_LEAVE")
    ∷ (message_system, codes "MESSAGE_SYSTEM")
    ∷ []

unfoldable pub message_type_to_text : ℤ → Text
unfolding select
message_type_to_text = select type_cases

abbrev code_cases : List (ℤ × Text)
code_cases =
    (message_code_welcome, codes "Welcome!")
    ∷ (message_code_enter_username, codes "Enter your username: ")
    ∷ (message_code_enter_password, codes "Enter your password: ")
    ∷ (message_code_enter_password_confirmation, codes "Confirm your password: ")
    ∷ (message_code_invalid_username, codes "Invalid username.")
    ∷ (message_code_invalid_password, codes "Invalid password.")
    ∷ (message_code_passwords_do_not_match, codes "Passwords do not match.")
    ∷ (message_code_try_again, codes "Try again.")
    ∷ (message_code_broadcast, codes "Broadcast message.")
    ∷ (message_code_user_join, codes " has joined the chat.")
    ∷ (message_code_user_leave, codes " has left the chat.")
    ∷ (message_code_user_does_not_exist, codes "User does not exist.")
    ∷ (message_code_user_already_online, codes "User is already online.")
    ∷ (message_code_user_register_info, codes "You can register at your first attempt.")
    ∷ (message_code_user_register_choice, codes "Would you like to register? [y/n] ")
    ∷ (message_code_user_created, codes "User created.")
    ∷ (message_code_user_authenticated, codes "User authenticated.")
    ∷ (message_code_user_authentication_attempts_three, codes "You have 3 attempts left.")
    ∷ (message_code_user_authentication_attempts_two, codes "You have 2 attempts left.")
    ∷ (message_code_user_authentication_attempts_one, codes "You have 1 attempt left.")
    ∷ (message_code_user_authentication_failure, codes "User authentication failed.")
    ∷ (
      message_code_user_authentication_attempts_exceeded,
      codes "User authentication attempts exceeded.",
    )
    ∷ (message_code_user_authentication_success, codes "User authentication success.")
    ∷ (message_code_uid, codes "'s UID is ")
    ∷ []

unfoldable pub message_code_to_text : ℤ → Text
unfolding select
message_code_to_text = select code_cases

-- The static buffer has 16 bytes.
unfoldable pub message_code_to_string : ℤ → Text
message_code_to_string code = snprintf 16 (print_int code)
