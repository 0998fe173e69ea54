-- ===== src/Startup.antt =====
-- run_server of server/src/server.c, up to its last loop: the database, the socket, TLS, the
-- queue, the table of the clients, the port with its retries, and the threads.
pub mod Up
use secure_chat.Prelude.{
  ℕ, zero, suc, ◌+◌, ◌==◌, ltb, Bool, true, false, not, Option, none, some, List, [], ◌∷◌,
  if◌then◌else◌, Text, Run, ok, fault, null_pointer, uninitialised, ◌>>=◌,
}
use secure_chat.HashMap.{HashMap, Chain, hash_map_create, hash_map_destroy}
use secure_chat.StsQueue.{Header, create}
use secure_chat.Database.{Calls, no_calls, setup_db, database_create_success}
use secure_chat.Tls.{Disk, Pem, Answers, Tls, ssl_init_success, destroy_ssl}
use secure_chat.Tls.Init.{Outcome, returned, exited, init_ssl}
use secure_chat.Server.Accept.{Acceptor, start_threads, max_clients, no_threads}

-- What the machine answers. `bind n` is the n-th call of it, `quit n` the flag behind the n-th that
-- failed; a thread that was not started is `none`.
pub record Machine : Type 0 where
  pub nprocs : ℕ
  pub open_ok : ℕ → Bool
  pub exec_ok : Text → Bool
  pub socket : Bool
  pub tls : Answers
  pub queue_memory : Bool
  pub map_memory : Bool
  pub table_memory : Bool
  pub mutex_ok : ℕ → Bool
  pub bind : ℕ → Bool
  pub quit : ℕ → Bool
  pub listen : Bool
  pub cli : Option ℕ
  pub info_update : Option ℕ
  pub msg_queue : Option ℕ
  pub client_ping : Option ℕ
  pub connection_add : Option ℕ

-- What run_server has set up: `srv`, and the calls of the database. `sock` tells that the socket is
-- open.
pub record Setup : Type 0 where
  pub db : Calls
  pub tls : Tls
  pub sock : Bool
  pub message_queue : Option Header
  pub client_map : Option HashMap
  pub attempts : ℕ
  pub acceptor : Acceptor

-- How it stands: it has returned a code, called `exit`, or is in its last loop.
pub data Phase : Type 0 where
  gave : ℕ → Phase
  exit_failure exit_success running : Phase

abbrev pub single_core_system : ℕ
single_core_system = 1500

abbrev pub database_setup_failure : ℕ
database_setup_failure = 1202

abbrev pub port_bind_attempts : ℕ
port_bind_attempts = 120

abbrev pub nothing_set : Tls → Setup
nothing_set t = record {
  db = no_calls;
  tls = t;
  sock = false;
  message_queue = none;
  client_map = none;
  attempts = 0;
  acceptor = no_threads;
}

-- `sts_queue.create` writes through what `malloc` returned.
unfoldable pub make_queue : Bool → Run Header
make_queue false = fault null_pointer
make_queue true = ok create

-- How the loop of `bind` ends, and after how many attempts that failed.
pub data Bound : Type 0 where
  bound quitted unbound : Bound

-- The loop with the attempts that are left, of which `n` have failed.
unfoldable pub bind_loop : (ℕ → Bool) → (ℕ → Bool) → ℕ → ℕ → ℕ × Bound
bind_loop bind quit zero n = (n, unbound)
bind_loop bind quit (suc left) n =
    let rest = bind_loop bind quit left (suc n) in
    if bind n
    then (n, bound)
    else if ltb (suc n) port_bind_attempts
    then if quit (suc n) then (suc n, quitted) else rest
    else (suc n, unbound)

module _ (pem : Pem) (x : Machine) where
  -- The threads; the process ends where that of the connections cannot be started.
  unfoldable pub launch : Option ℕ → Setup → Run (Setup × Phase)
  launch none s = ok (record s { sock = false }, exit_failure)
  launch (some tid) s = start_threads x.cli x.info_update x.msg_queue x.client_ping tid >>= λ a.
      ok (record s { acceptor = a }, running)

  unfoldable pub begin_listening : Setup → Run (Setup × Phase)
  begin_listening s =
      if x.listen then launch x.connection_add s else ok (record s { sock = false }, exit_failure)

  unfoldable pub after_bind : Setup → ℕ × Bound → Run (Setup × Phase)
  after_bind s (n, bound) = begin_listening (record s { attempts = n })
  after_bind s (n, quitted) = ok (record s { attempts = n; sock = false }, exit_success)
  after_bind s (n, unbound) = ok (record s { attempts = n; sock = false }, exit_failure)

  -- Behind init_ssl; a table that could not be created is NULL.
  unfoldable pub serve : Setup → Run (Setup × Phase)
  serve s = make_queue x.queue_memory >>= λ q.
      after_bind
        (record s {
          message_queue = some q;
          client_map = hash_map_create x.map_memory x.table_memory x.mutex_ok max_clients;
        })
        (bind_loop x.bind x.quit port_bind_attempts 0)

  unfoldable pub after_ssl : Setup → Tls × Outcome → Run (Setup × Phase)
  after_ssl s (t, exited) = ok (record s { tls = t }, exit_failure)
  after_ssl s (t, returned code) =
      if code == ssl_init_success
      then serve (record s { tls = t })
      else ok (record s { tls = t }, exit_failure)

  unfoldable pub open_socket : Setup → Run (Setup × Phase)
  open_socket s =
      if x.socket
      then (init_ssl pem x.tls s.tls >>= λ r. after_ssl (record s { sock = true }) r)
      else ok (s, exit_failure)

  unfoldable pub after_db : Setup → Calls × ℕ → Run (Setup × Phase)
  after_db s (c, code) =
      if code == database_create_success
      then open_socket (record s { db = c })
      else ok (record s { db = c }, gave database_setup_failure)

  unfoldable pub run_server : Tls → Run (Setup × Phase)
  run_server t =
      if x.nprocs == 1
      then ok (nothing_set t, gave single_core_system)
      else after_db (nothing_set t) (setup_db x.open_ok x.exec_ok no_calls)

-- `main`: what the process returns.
unfoldable pub exit_status : Phase → Option ℕ
exit_status (gave code) = some (if code == 0 then 0 else 1)
exit_status exit_failure = some 1
exit_status exit_success = some 0
exit_status running = none
