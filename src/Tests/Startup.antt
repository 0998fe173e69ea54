-- ===== src/Tests/Startup.antt =====
-- Examples of the theorems on run_server: a server that binds at the third attempt.
use secure_chat.Prelude.{◌≡◌, refl, ◌==◌, true, false, some, ok}
use secure_chat.Startup.{Machine, Setup, running, nothing_set, run_server}
use secure_chat.Startup.Up.{IsUp, run_server-IsUp}
use secure_chat.Tls.Restart.{started}
use secure_chat.Tests.Auth.{value_or}
use secure_chat.Tests.Tls.{test_pem, good_answers, no_files}
use secure_chat.Startup.{
  make_queue, bind_loop, launch, begin_listening, after_bind, serve, after_ssl, open_socket,
  after_db,
}
use secure_chat.Tls.{
  store_file, one_less, free_key_ctx, free_key, free_x509, close_file, open_file, new_key, is_there,
  file_exists,
}
use secure_chat.Tls.Generate.{
  written, succeeded, write_key_file, keep_key, generate_rsa_key, write_certificate_file,
  sign_certificate, read_key_file, new_certificate, generate_self_signed_certificate, check_cert,
  check_and_generate_key_cert,
}
use secure_chat.Tls.Init.{new_ssl, use_key, use_certificate, certificate_of, load_pair, init_ssl}
use secure_chat.Database.{connect_loop, connect_db, create_tables, setup_db}
use secure_chat.Server.Accept.{store_thread, start_threads}
use secure_chat.HashMap.{hash_map_create}

abbrev machine : Machine
machine = record {
  nprocs = 4;
  open_ok = λ n. true;
  exec_ok = λ sql. true;
  socket = true;
  tls = good_answers;
  queue_memory = true;
  map_memory = true;
  table_memory = true;
  mutex_ok = λ i. true;
  bind = λ n. n == 2;
  quit = λ n. false;
  listen = true;
  cli = some 1;
  info_update = some 2;
  msg_queue = some 3;
  client_ping = some 4;
  connection_add = some 5;
}

abbrev state : Setup
state =
    (value_or (nothing_set (started no_files), running)
      (run_server test_pem machine (started no_files))).0

comes_up : run_server test_pem machine (started no_files) ≡ ok (state, running)
unfolding make_queue bind_loop launch begin_listening after_bind serve after_ssl open_socket
    after_db run_server store_file one_less free_key_ctx free_key free_x509 close_file open_file
    new_key is_there file_exists written succeeded write_key_file keep_key generate_rsa_key
    write_certificate_file sign_certificate read_key_file new_certificate
    generate_self_signed_certificate check_cert check_and_generate_key_cert new_ssl use_key
    use_certificate certificate_of load_pair init_ssl connect_loop connect_db create_tables setup_db
    store_thread start_threads hash_map_create
comes_up = refl

run_server-IsUp_example : IsUp test_pem machine (started no_files) state
run_server-IsUp_example = run_server-IsUp test_pem machine (started no_files) state comes_up
