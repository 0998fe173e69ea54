-- ===== src/Tests/Auth.antt =====
-- Examples of the theorems on the authentication.
use secure_chat.Prelude.{
  ℕ, ◌≡◌, refl, true, Option, none, some, List, [], ◌∷◌, Text, codes, length, Run, ok, fault,
}
use secure_chat.Auth.Turn.{
  start, first_greeting, greeting, refused, refuse_unknown, unknown, looked_up, named, turn,
  finalize_open, free_uid, clean, leave, auth_loop, user_auth, user_authentication_success,
}
use secure_chat.Auth.Login.{
  greet_user, updated, accept, reject, compared, compare_hash, check_password, refuse_online,
  ask_password, found_online, login,
}
use secure_chat.Auth.Dialog.{
  say, say_code, read_line, uid_line, stepped, bound, query, finalize, close_db, set_username,
  set_uid, set_request, Db, SqlStep, row, done, failed, Wire, Account,
}
use secure_chat.Database.{connect_loop, connect_db}
use secure_chat.Protocol.Create.{terminate, fill, build, create_in, create_message}
use secure_chat.Protocol.Wire.{
  format_message, send_message, span_not, non_empty, scan_set, scan_delimiter, store_payload,
  scan_payload, behind, store_length, scan_length, store_recipient, scan_recipient, store_sender,
  scan_sender, store_type, scan_type, store_uid, scan_message, parse_message, Ssl, other,
}
use secure_chat.Protocol.Number.{
  decimal_loop, decimal, print_int, skip_space, scan_sign, scan_digits, scan_nat, negate, int_of,
  unsigned_of, int_after, unsigned_after, scan_int, scan_unsigned, atoi, pos,
}
use secure_chat.Protocol.Hash.{hex, get_hash}
use secure_chat.HashMap.{
  bucket_of, lock, bucket, open_bucket, uid_of, fields_of, find_chain, hash_map_find,
}
use secure_chat.HashMap.Strtoul.{strtoul}
use secure_chat.Auth.Outcome.Loop.{Authenticated, user_auth-Authenticated}
use secure_chat.Tests.{test_env, test_store, two_clients, hello, blank}

-- A connection that takes everything, and whose other side sends these lines.
abbrev next_line : List Text → Option Text × List Text
next_line [] = (none, [])
next_line (line ∷ lines) = (some line, lines)

abbrev pub script : Ssl
script = record {
  State = List Text;
  write = λ lines line. (pos 1, lines);
  read = next_line;
  get_error = λ lines code. other;
}

-- A database that answers with these steps.
abbrev next_step : List SqlStep → SqlStep × List SqlStep
next_step [] = (failed, [])
next_step (s ∷ ss) = (s, ss)

abbrev pub answers : Db
answers = record {
  State = List SqlStep;
  prepare = λ h sql. true;
  bind = λ h sql params. true;
  step = λ h sql params. next_step h;
}

abbrev says : Text → Text
says t = format_message (record hello { payload = t; payload_length = length t })

-- The client of pointer 5 names itself and sends its password.
abbrev pub before : Wire script
before = record { connection = says (codes "ann") ∷ says (codes "secret") ∷ []; msg = blank }

abbrev pub steps : List SqlStep
steps = row (codes "3") ∷ row (codes "3") ∷ done ∷ []

abbrev dialog : Run (Wire script × Account answers × ℕ)
dialog = user_auth test_env script answers true 15 two_clients (λ n. true) steps 5 test_store before

abbrev pub value_or {ℓ} : {V : Type ℓ} → V → Run V → V
value_or d (ok v) = v
value_or d (fault why) = d

abbrev logged_in : Wire script × Account answers × ℕ
logged_in = value_or (before, start answers steps (λ n. true) 5 test_store, 0) dialog

dialog-ok : dialog ≡ ok logged_in
unfolding start first_greeting greeting refused refuse_unknown unknown looked_up named turn
    finalize_open free_uid clean leave auth_loop user_auth greet_user updated accept reject compared
    compare_hash check_password refuse_online ask_password found_online login say say_code read_line
    uid_line stepped bound query finalize close_db set_username set_uid set_request connect_loop
    connect_db terminate fill build create_in create_message format_message send_message span_not
    non_empty scan_set scan_delimiter store_payload scan_payload behind store_length scan_length
    store_recipient scan_recipient store_sender scan_sender store_type scan_type store_uid
    scan_message parse_message decimal_loop decimal print_int skip_space scan_sign scan_digits
    scan_nat negate int_of unsigned_of int_after unsigned_after scan_int scan_unsigned atoi hex
    get_hash bucket_of lock bucket open_bucket uid_of fields_of find_chain hash_map_find strtoul
dialog-ok = refl

logged_in-success : logged_in.2 ≡ user_authentication_success
unfolding start first_greeting greeting refused refuse_unknown unknown looked_up named turn
    finalize_open free_uid clean leave auth_loop user_auth greet_user updated accept reject compared
    compare_hash check_password refuse_online ask_password found_online login say say_code read_line
    uid_line stepped bound query finalize close_db set_username set_uid set_request connect_loop
    connect_db terminate fill build create_in create_message format_message send_message span_not
    non_empty scan_set scan_delimiter store_payload scan_payload behind store_length scan_length
    store_recipient scan_recipient store_sender scan_sender store_type scan_type store_uid
    scan_message parse_message decimal_loop decimal print_int skip_space scan_sign scan_digits
    scan_nat negate int_of unsigned_of int_after unsigned_after scan_int scan_unsigned atoi hex
    get_hash bucket_of lock bucket open_bucket uid_of fields_of find_chain hash_map_find strtoul
logged_in-success = refl

user_auth-Authenticated_example : Authenticated test_env logged_in
user_auth-Authenticated_example =
    user_auth-Authenticated test_env script answers true 15 two_clients (λ n. true) steps 5
      test_store before logged_in dialog-ok
