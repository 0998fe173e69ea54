-- ===== src/Tests/Session.antt =====
-- An example of the theorem on the thread of a client: the client of pointer 5 logs in.
use secure_chat.Prelude.{◌≡◌, refl, true, some, [], Run, ok}
use secure_chat.Session.Admission.{Admitted, admit-Admitted}
use secure_chat.Tests.{test_env, test_store, two_clients, blank}
use secure_chat.Tests.Auth.{script, answers, steps, before, value_or}
use secure_chat.Session.{
  set_fields, authenticate, joined, insert_client, let_in, admit, inserted, Session, Standing,
  serving, uninserted,
}
use secure_chat.Server.{enqueue, send_join_message, announce}
use secure_chat.Auth.Turn.{
  start, first_greeting, greeting, refused, refuse_unknown, unknown, looked_up, named, turn,
  finalize_open, free_uid, clean, leave, auth_loop, user_auth,
}
use secure_chat.Auth.Login.{
  greet_user, updated, accept, reject, compared, compare_hash, check_password, refuse_online,
  ask_password, found_online, login,
}
use secure_chat.Auth.Dialog.{
  say, say_code, read_line, uid_line, stepped, bound, query, finalize, close_db, set_username,
  set_uid, set_request,
}
use secure_chat.Database.{connect_loop, connect_db}
use secure_chat.Protocol.Create.{terminate, fill, build, create_in, create_message}
use secure_chat.Protocol.Wire.{
  format_message, send_message, span_not, non_empty, scan_set, scan_delimiter, store_payload,
  scan_payload, behind, store_length, scan_length, store_recipient, scan_recipient, store_sender,
  scan_sender, store_type, scan_type, store_uid, scan_message, parse_message,
}
use secure_chat.Protocol.Number.{
  decimal_loop, decimal, print_int, skip_space, scan_sign, scan_digits, scan_nat, negate, int_of,
  unsigned_of, int_after, unsigned_after, scan_int, scan_unsigned, atoi,
}
use secure_chat.Protocol.Hash.{hex, get_hash}
use secure_chat.HashMap.{
  bucket_of, lock, bucket, open_bucket, uid_of, fields_of, find_chain, hash_map_find, insert_chain,
  hash_map_insert, iterate_chain, iterate_from, hash_map_iterate,
}
use secure_chat.HashMap.Strtoul.{strtoul}

abbrev start_session : Session script
start_session = record {
  srv = record {
    client_map = two_clients;
    clients = test_store;
    message_queue = [];
    connection = λ r. before.connection;
  };
  requests_handled = 0;
  client_logins_handled = 0;
  msg = blank;
  buffer = [];
  asked = [];
}

abbrev admission : Run (Session script × Standing)
admission = admit test_env script answers (some blank) true 15 5 (λ n. true) steps start_session

abbrev let_in_session : Session script × Standing
let_in_session = value_or (start_session, uninserted) admission

admission-ok : admission ≡ ok let_in_session
unfolding set_fields authenticate joined insert_client let_in admit enqueue send_join_message
    announce start first_greeting greeting refused refuse_unknown unknown looked_up named turn
    finalize_open free_uid clean leave auth_loop user_auth greet_user updated accept reject compared
    compare_hash check_password refuse_online ask_password found_online login say say_code read_line
    uid_line stepped bound query finalize close_db set_username set_uid set_request connect_loop
    connect_db terminate fill build create_in create_message format_message send_message span_not
    non_empty scan_set scan_delimiter store_payload scan_payload behind store_length scan_length
    store_recipient scan_recipient store_sender scan_sender store_type scan_type store_uid
    scan_message parse_message decimal_loop decimal print_int skip_space scan_sign scan_digits
    scan_nat negate int_of unsigned_of int_after unsigned_after scan_int scan_unsigned atoi hex
    get_hash bucket_of lock bucket open_bucket uid_of fields_of find_chain hash_map_find
    insert_chain hash_map_insert iterate_chain iterate_from hash_map_iterate strtoul inserted
admission-ok = refl

admission-serving : let_in_session.1 ≡ serving
unfolding set_fields authenticate joined insert_client let_in admit enqueue send_join_message
    announce start first_greeting greeting refused refuse_unknown unknown looked_up named turn
    finalize_open free_uid clean leave auth_loop user_auth greet_user updated accept reject compared
    compare_hash check_password refuse_online ask_password found_online login say say_code read_line
    uid_line stepped bound query finalize close_db set_username set_uid set_request connect_loop
    connect_db terminate fill build create_in create_message format_message send_message span_not
    non_empty scan_set scan_delimiter store_payload scan_payload behind store_length scan_length
    store_recipient scan_recipient store_sender scan_sender store_type scan_type store_uid
    scan_message parse_message decimal_loop decimal print_int skip_space scan_sign scan_digits
    scan_nat negate int_of unsigned_of int_after unsigned_after scan_int scan_unsigned atoi hex
    get_hash bucket_of lock bucket open_bucket uid_of fields_of find_chain hash_map_find
    insert_chain hash_map_insert iterate_chain iterate_from hash_map_iterate strtoul inserted
admission-serving = refl

admit-Admitted_example : Admitted test_env true 5 start_session let_in_session
admit-Admitted_example =
    admit-Admitted test_env script answers (some blank) true 15 5 (λ n. true) steps start_session
      let_in_session admission-ok
