-- ===== src/Protocol/Codes.antt =====
-- The enumerations of common/include/protocol.h.
use secure_chat.Prelude.{◌==◌, Bool, false}
use secure_chat.Protocol.Number.{ℤ, pos, negsuc}

abbrev pub message_text : ℤ
message_text = pos 1234

abbrev pub message_toast : ℤ
message_toast = pos 1235

abbrev pub message_choice : ℤ
message_choice = pos 1236

abbrev pub message_notification : ℤ
message_notification = pos 1237

abbrev pub message_broadcast : ℤ
message_broadcast = pos 1238

abbrev pub message_text_rsa_encrypted : ℤ
message_text_rsa_encrypted = pos 1239

abbrev pub message_text_aes_encrypted : ℤ
message_text_aes_encrypted = pos 1240

abbrev pub message_ping : ℤ
message_ping = pos 1241

abbrev pub message_ack : ℤ
message_ack = pos 1242

abbrev pub message_signal : ℤ
message_signal = pos 1243

abbrev pub message_auth : ℤ
message_auth = pos 1244

abbrev pub message_auth_attemps : ℤ
message_auth_attemps = pos 1245

abbrev pub message_uid : ℤ
message_uid = pos 1246

abbrev pub message_error : ℤ
message_error = pos 1247

abbrev pub message_user_join : ℤ
message_user_join = pos 1248

abbrev pub message_user_leave : ℤ
message_user_leave = pos 1249

abbrev pub message_system : ℤ
message_system = pos 1250

abbrev pub message_code_welcome : ℤ
message_code_welcome = pos 2345

abbrev pub message_code_enter_username : ℤ
message_code_enter_username = pos 2346

abbrev pub message_code_enter_password : ℤ
message_code_enter_password = pos 2347

abbrev pub message_code_enter_password_confirmation : ℤ
message_code_enter_password_confirmation = pos 2348

abbrev pub message_code_invalid_username : ℤ
message_code_invalid_username = pos 2349

abbrev pub message_code_invalid_password : ℤ
message_code_invalid_password = pos 2350

abbrev pub message_code_passwords_do_not_match : ℤ
message_code_passwords_do_not_match = pos 2351

abbrev pub message_code_try_again : ℤ
message_code_try_again = pos 2352

abbrev pub message_code_broadcast : ℤ
message_code_broadcast = pos 2353

abbrev pub message_code_user_join : ℤ
message_code_user_join = pos 2354

abbrev pub message_code_user_leave : ℤ
message_code_user_leave = pos 2355

abbrev pub message_code_user_does_not_exist : ℤ
message_code_user_does_not_exist = pos 2356

abbrev pub message_code_user_already_online : ℤ
message_code_user_already_online = pos 2357

abbrev pub message_code_user_register_info : ℤ
message_code_user_register_info = pos 2358

abbrev pub message_code_user_register_choice : ℤ
message_code_user_register_choice = pos 2359

abbrev pub message_code_user_created : ℤ
message_code_user_created = pos 2360

abbrev pub message_code_user_authenticated : ℤ
message_code_user_authenticated = pos 2361

abbrev pub message_code_user_authentication_attempts_three : ℤ
message_code_user_authentication_attempts_three = pos 2362

abbrev pub message_code_user_authentication_attempts_two : ℤ
message_code_user_authentication_attempts_two = pos 2363

abbrev pub message_code_user_authentication_attempts_one : ℤ
message_code_user_authentication_attempts_one = pos 2364

abbrev pub message_code_user_authentication_failure : ℤ
message_code_user_authentication_failure = pos 2365

abbrev pub message_code_user_authentication_attempts_exceeded : ℤ
message_code_user_authentication_attempts_exceeded = pos 2366

abbrev pub message_code_user_authentication_success : ℤ
message_code_user_authentication_success = pos 2367

abbrev pub message_code_uid : ℤ
message_code_uid = pos 2368

-- `==` of the `int32_t` values
abbrev pub int_eq : ℤ → ℤ → Bool
int_eq (pos a) (pos b) = a == b
int_eq (pos a) (negsuc b) = false
int_eq (negsuc a) (pos b) = false
int_eq (negsuc a) (negsuc b) = a == b
