-- ===== src/Server/Accept.antt =====
-- The threads of server/src/server.c: those that run_server starts, and the loop of
-- handle_connection_add that starts one for every connection.
pub mod Resources
use secure_chat.Prelude.{
  ℕ, ◌+◌, Bool, true, false, ◌||◌, ltb, leb, Option, none, some, List, [], ◌∷◌, ◌++◌, if◌then◌else◌,
  Run, ok, fault, out_of_bounds, ◌>>=◌,
}

abbrev pub max_clients : ℕ
max_clients = 100

abbrev pub max_threads : ℕ
max_threads = 100

-- `threads` up to `thread_count`; a thread that could not be started leaves an id that was never
-- written. Behind them what the loop took and what it gave back itself, and the requests that a
-- thread was started with.
pub record Acceptor : Type 0 where
  pub thread_count : ℕ
  pub threads : List (Option ℕ)
  pub accepted : ℕ
  pub closed_sockets : ℕ
  pub made_ssl : ℕ
  pub freed_ssl : ℕ
  pub made_requests : ℕ
  pub freed_requests : ℕ
  pub started : ℕ

-- What the system answers in a turn: `accept`, `SSL_new`, `SSL_accept`, `malloc` of the request, and
-- `pthread_create` with the id of the thread. `quit` is the flag behind `accept`.
pub record Arrival : Type 0 where
  pub socket : Bool
  pub quit : Bool
  pub ssl_new : Bool
  pub handshake : Bool
  pub memory : Bool
  pub thread : Option ℕ

-- `srv.threads[srv.thread_count] = tid` and `srv.thread_count++`
unfoldable pub store_thread : Option ℕ → Acceptor → Run Acceptor
store_thread tid a =
    if ltb a.thread_count max_clients
    then ok (record a { thread_count = a.thread_count + 1; threads = a.threads ++ (tid ∷ []) })
    else fault out_of_bounds

unfoldable pub close_socket : Acceptor → Acceptor
close_socket a = record a { closed_sockets = a.closed_sockets + 1 }

unfoldable pub free_ssl : Acceptor → Acceptor
free_ssl a = record a { freed_ssl = a.freed_ssl + 1 }

unfoldable pub free_request : Acceptor → Acceptor
free_request a = record a { freed_requests = a.freed_requests + 1 }

-- Behind `pthread_create`
unfoldable pub start_thread : Option ℕ → Acceptor → Run Acceptor
start_thread none a = ok (free_request (close_socket (free_ssl a)))
start_thread (some tid) a =
    let b : Acceptor = record a { started = a.started + 1 } in
    if ltb b.thread_count max_clients then store_thread (some tid) b else ok b

unfoldable pub make_request : Arrival → Acceptor → Run Acceptor
make_request x a =
    if x.memory
    then start_thread x.thread (record a { made_requests = a.made_requests + 1 })
    else ok (close_socket (free_ssl a))

unfoldable pub secure : Arrival → Acceptor → Run Acceptor
secure x a =
    if x.ssl_new
    then (let b : Acceptor = record a { made_ssl = a.made_ssl + 1 } in
        if x.handshake then make_request x b else ok (close_socket (free_ssl b)))
    else ok (close_socket a)

-- A turn of the loop; `false` where the process ends.
unfoldable pub accept_one : Arrival → Acceptor → Run (Acceptor × Bool)
accept_one x a =
    if leb max_clients a.thread_count || leb max_threads a.thread_count
    then ok (a, true)
    else if x.socket
    then (secure x (record a { accepted = a.accepted + 1 }) >>= λ b. ok (b, true))
    else if x.quit
    then ok (a, false)
    else ok (a, true)

unfoldable pub handle_connection_add : List Arrival → Acceptor → Run Acceptor
handle_connection_add [] a = ok a
handle_connection_add (x ∷ xs) a =
    accept_one x a >>= λ r. if r.1 then handle_connection_add xs r.0 else ok r.0

abbrev pub no_threads : Acceptor
no_threads = record {
  thread_count = 0;
  threads = [];
  accepted = 0;
  closed_sockets = 0;
  made_ssl = 0;
  freed_ssl = 0;
  made_requests = 0;
  freed_requests = 0;
  started = 0;
}

-- The four threads that `run_server` starts first, and the thread of the loop.
unfoldable pub start_threads : Option ℕ → Option ℕ → Option ℕ → Option ℕ → ℕ → Run Acceptor
start_threads cli info_update msg_queue client_ping connection_add = do
  a1 ← store_thread cli no_threads
  a2 ← store_thread info_update a1
  a3 ← store_thread msg_queue a2
  a4 ← store_thread client_ping a3
  store_thread (some connection_add) a4
