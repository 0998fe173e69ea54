-- ===== src/Server/Accept/Resources.antt =====
-- What the loop of handle_connection_add holds.
use secure_chat.Prelude.{
  ℕ, ◌+◌, ◌≤◌, ◌≡◌, refl, true, false, ◌||◌, leb, lt→ltb, ◌<◌, Option, none, some, List, [], ◌∷◌,
  length, inl, inr, Bool-cases, ◌>>=◌, Returns, arith, length-append,
}
use secure_chat.Server.Accept.{
  Acceptor, Arrival, max_clients, max_threads, store_thread, close_socket, free_ssl, free_request,
  start_thread, make_request, secure, accept_one, handle_connection_add, start_threads,
}

-- Five threads are the server's own, every other one has a socket, a connection and a request, and all
-- else that was taken was given back.
pub record IsBalanced (a : Acceptor) : Type 0 where
  pub count : a.thread_count ≡ a.started + 5
  pub recorded : length a.threads ≡ a.thread_count
  pub bounded : a.thread_count ≤ 100
  pub sockets : a.accepted ≡ a.closed_sockets + a.started
  pub connections : a.made_ssl ≡ a.freed_ssl + a.started
  pub requests : a.made_requests ≡ a.freed_requests + a.started

-- The same in the middle of a turn, with room for a thread and with so many sockets, connections and
-- requests in hand.
record Holds (s c r : ℕ) (a : Acceptor) : Type 0 where
  count : a.thread_count ≡ a.started + 5
  recorded : length a.threads ≡ a.thread_count
  room : a.thread_count < 100
  sockets : a.accepted ≡ a.closed_sockets + a.started + s
  connections : a.made_ssl ≡ a.freed_ssl + a.started + c
  requests : a.made_requests ≡ a.freed_requests + a.started + r

start_thread-IsBalanced :
    (tid : Option ℕ) (a : Acceptor) → Holds 1 1 1 a → Returns (start_thread tid a) IsBalanced
unfolding start_thread store_thread close_socket free_ssl free_request
start_thread-IsBalanced none a h = (
  _,
  refl,
  record {
    count = h.count;
    recorded = h.recorded;
    bounded = omega (arith, h.room);
    sockets = omega (arith, h.sockets);
    connections = omega (arith, h.connections);
    requests = omega (arith, h.requests);
  },
)
start_thread-IsBalanced (some tid) a h = rw (lt→ltb a.thread_count 100 h.room) (
  _,
  refl,
  record {
    count = omega (arith, h.count);
    recorded = omega (arith, h.recorded, length-append a.threads (some tid ∷ []));
    bounded = omega (arith, h.room);
    sockets = omega (arith, h.sockets);
    connections = omega (arith, h.connections);
    requests = omega (arith, h.requests);
  },
)

make_request-IsBalanced :
    (x : Arrival) (a : Acceptor) → Holds 1 1 0 a → Returns (make_request x a) IsBalanced
unfolding make_request close_socket free_ssl
make_request-IsBalanced x a h = elim (Bool-cases x.memory) [
  | inl there ↦ rw there (
      start_thread-IsBalanced x.thread (record a { made_requests = a.made_requests + 1 })
        (record {
          count = h.count;
          recorded = h.recorded;
          room = h.room;
          sockets = h.sockets;
          connections = h.connections;
          requests = omega (arith, h.requests);
        }))
  | inr missing ↦ rw missing (
    _,
    refl,
    record {
      count = h.count;
      recorded = h.recorded;
      bounded = omega (arith, h.room);
      sockets = omega (arith, h.sockets);
      connections = omega (arith, h.connections);
      requests = omega (arith, h.requests);
    },
  )
]

secure-IsBalanced : (x : Arrival) (a : Acceptor) → Holds 1 0 0 a → Returns (secure x a) IsBalanced
unfolding secure close_socket free_ssl
secure-IsBalanced x a h = elim (Bool-cases x.ssl_new) [
  | inl made ↦ elim (Bool-cases x.handshake) [
    | inl shaken ↦ simp made (
        simp shaken (
          make_request-IsBalanced x (record a { made_ssl = a.made_ssl + 1 })
            (record {
              count = h.count;
              recorded = h.recorded;
              room = h.room;
              sockets = h.sockets;
              connections = omega (arith, h.connections);
              requests = h.requests;
            })))
    | inr broken ↦ rw made (
        rw broken (
          _,
          refl,
          record {
            count = h.count;
            recorded = h.recorded;
            bounded = omega (arith, h.room);
            sockets = omega (arith, h.sockets);
            connections = omega (arith, h.connections);
            requests = omega (arith, h.requests);
          },
        ))
  ]
  | inr refused ↦ rw refused (
    _,
    refl,
    record {
      count = h.count;
      recorded = h.recorded;
      bounded = omega (arith, h.room);
      sockets = omega (arith, h.sockets);
      connections = omega (arith, h.connections);
      requests = omega (arith, h.requests);
    },
  )
]

accept_one-IsBalanced :
    (x : Arrival) (a : Acceptor) → IsBalanced a → Returns (accept_one x a) (λ r. IsBalanced r.0)
unfolding accept_one
accept_one-IsBalanced x a b =
    elim (Bool-cases (leb max_clients a.thread_count || leb max_threads a.thread_count)) [
      | inl full ↦ rw full ((a, true), refl, b)
      | inr free ↦ elim (Bool-cases x.socket) [
        | inl got ↦
            let held : Holds 1 0 0 (record a { accepted = a.accepted + 1 }) = record {
              count = b.count;
              recorded = b.recorded;
              room = ground (arith, free);
              sockets = omega (arith, b.sockets);
              connections = omega (arith, b.connections);
              requests = omega (arith, b.requests);
            } in
            let (v, e, balanced) = secure-IsBalanced x _ held in
            simp (free, got, e) ((v, true), refl, balanced)
        | inr failed ↦ elim (Bool-cases x.quit) [
          | inl asked ↦ rw (free, failed, asked) ((a, false), refl, b)
          | inr going ↦ rw (free, failed, going) ((a, true), refl, b)
        ]
      ]
    ]

pub handle_connection_add-IsBalanced :
    (xs : List Arrival) (a : Acceptor)
    → IsBalanced a
    → Returns (handle_connection_add xs a) IsBalanced
unfolding handle_connection_add
handle_connection_add-IsBalanced [] a b = (a, refl, b)
handle_connection_add-IsBalanced (x ∷ xs) a b =
    let ((v, running), e, balanced) = accept_one-IsBalanced x a b in
    elim (Bool-cases running) [
      | inl on ↦ rw (e, on) (handle_connection_add-IsBalanced xs v balanced)
      | inr off ↦ rw (e, off) (v, refl, balanced)
    ]

start_threads-IsBalanced :
    (cli info_update msg_queue client_ping : Option ℕ) (connection_add : ℕ)
    → Returns (start_threads cli info_update msg_queue client_ping connection_add) IsBalanced
unfolding start_threads store_thread
start_threads-IsBalanced cli info_update msg_queue client_ping connection_add = (
  _,
  refl,
  record {
    count = refl;
    recorded = refl;
    bounded = omega arith;
    sockets = refl;
    connections = refl;
    requests = refl;
  },
)

-- Whatever the system answers, the start of the threads and any number of turns of the loop write no
-- thread behind the array of 100. Every socket, connection and request that the loop took was given
-- back or belongs to a thread that was started, and since no thread is ever taken off the count, at
-- most 95 connections get one in the whole life of the server.
pub handle_connection_add-bounded :
    (cli info_update msg_queue client_ping : Option ℕ) (connection_add : ℕ) (xs : List Arrival)
    → Returns
        (start_threads cli info_update msg_queue client_ping connection_add
          >>= handle_connection_add xs)
        (λ a. IsBalanced a × (a.started ≤ 95))
handle_connection_add-bounded cli info_update msg_queue client_ping connection_add xs =
    let (a, e, start) =
      start_threads-IsBalanced cli info_update msg_queue client_ping connection_add in
    let (b, e', end) = handle_connection_add-IsBalanced xs a start in
    rw e (b, e', (end, omega (arith, end.count, end.bounded)))
