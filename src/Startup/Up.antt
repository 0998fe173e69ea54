-- ===== src/Startup/Up.antt =====
-- When run_server comes to its last loop.
use secure_chat.Prelude.{
  ℕ, zero, suc, ◌+◌, ◌<◌, ◌≤◌, ◌≡◌, refl, sym, ◌⊎◌, inl, inr, ◌==◌, Bool, Bool-cases, true, false,
  Option, none, some, [], ◌∷◌, ok, Always, Always-ok, Always-then, ==_iff, arith,
}
use secure_chat.HashMap.{hash_map_create}
use secure_chat.StsQueue.{create}
use secure_chat.Database.{no_calls, setup_db, database_create_success}
use secure_chat.Tls.{Pem, Tls}
use secure_chat.Tls.Init.{Outcome, returned, exited, init_ssl}
use secure_chat.Server.Accept.{start_threads, store_thread, max_clients}
use secure_chat.Startup.{
  Machine, Setup, Phase, running, nothing_set, make_queue, Bound, bound, quitted, unbound,
  bind_loop, port_bind_attempts, launch, begin_listening, after_bind, serve, after_ssl, open_socket,
  after_db, run_server,
}

equal_or_above : (n i : ℕ) → n ≤ i → (n ≡ i) ⊎ (suc n ≤ i)
equal_or_above n i low = ground arith

-- The `m`-th call of `bind` is the first that succeeds, of the attempts from `n` on, and no flag was
-- seen behind the others.
pub record IsFirst (bind quit : ℕ → Bool) (n m : ℕ) : Type 0 where
  pub succeeds : bind m ≡ true
  pub least : n ≤ m
  pub earlier : (i : ℕ) → n ≤ i → i < m → (bind i ≡ false) × (quit (suc i) ≡ false)

earlier_or_now :
    (bind quit : ℕ → Bool) (n m i : ℕ)
    → bind n ≡ false
    → quit (suc n) ≡ false
    → IsFirst bind quit (suc n) m
    → n ≤ i
    → i < m
    → (bind i ≡ false) × (quit (suc i) ≡ false)
earlier_or_now bind quit n m i bad stay first low high = elim (equal_or_above n i low) [
  | inl same ↦ rw (sym same) (bad, stay)
  | inr above ↦ first.earlier i above high
]

pub bind_loop-IsFirst :
    (bind quit : ℕ → Bool) (left n m : ℕ)
    → bind_loop bind quit left n ≡ (m, bound)
    → IsFirst bind quit n m × (m < n + left)
unfolding bind_loop
bind_loop-IsFirst bind quit zero n m run = cc
bind_loop-IsFirst bind quit (suc left) n m run = elim (Bool-cases (bind n)) [
  | inl good ↦
      let same : n ≡ m = ground arith in
      (
        record {
          succeeds = rw (sym same) good;
          least = omega (arith, same);
          earlier = λ i low high. absurd (omega (arith, same));
        },
        omega (arith, same),
      )
  | inr bad ↦
      let go_on : (quit (suc n) ≡ false) × (bind_loop bind quit left (suc n) ≡ (m, bound)) =
        ground arith in
      let (first, few) = bind_loop-IsFirst bind quit left (suc n) m go_on.1 in
      (
        record {
          succeeds = first.succeeds;
          least = omega (arith, first.least);
          earlier = λ i low high. earlier_or_now bind quit n m i bad go_on.0 first low high;
        },
        omega (arith, few),
      )
]

module _ (pem : Pem) (x : Machine) (t : Tls) where
  -- What was set up before the port is tried.
  pub record IsPrepared (s : Setup) : Type 0 where
    pub cores : (x.nprocs == 1) ≡ false
    pub database : (setup_db x.open_ok x.exec_ok no_calls).1 ≡ database_create_success
    pub ssl : init_ssl pem x.tls t ≡ ok (s.tls, returned 4000)
    pub sock : s.sock ≡ true
    pub message_queue : s.message_queue ≡ some create
    pub client_map :
        s.client_map ≡ hash_map_create x.map_memory x.table_memory x.mutex_ok max_clients

  -- All that run_server has set up where it waits for the end of its threads.
  pub record IsUp (s : Setup) : Type 0 where
    pub prepared : IsPrepared s
    pub port : IsFirst x.bind x.quit 0 s.attempts
    pub few : s.attempts < 120
    pub listening : x.listen ≡ true
    pub threads :
        s.acceptor.threads
        ≡ x.cli ∷ x.info_update ∷ x.msg_queue ∷ x.client_ping ∷ x.connection_add ∷ []
    pub count : s.acceptor.thread_count ≡ 5
    pub accepting : (tid : ℕ) × (x.connection_add ≡ some tid)

  Good : Setup × Phase → Type 0
  Good r = r.1 ≡ running → IsUp r.0

  launch-Good :
      (tid : Option ℕ) (s : Setup)
      → x.connection_add ≡ tid
      → IsPrepared s
      → IsFirst x.bind x.quit 0 s.attempts
      → s.attempts < 120
      → x.listen ≡ true
      → Always (launch pem x tid s) Good
  unfolding launch Good start_threads store_thread
  launch-Good none s e p port few l = Always-ok Good _ (λ h. cc)
  launch-Good (some tid) s e p port few l = Always-ok Good _ (λ h. record {
    prepared = record {
      cores = p.cores;
      database = p.database;
      ssl = p.ssl;
      sock = p.sock;
      message_queue = p.message_queue;
      client_map = p.client_map;
    };
    port = port;
    few = few;
    listening = l;
    threads = rw e refl;
    count = refl;
    accepting = (tid, e);
  })

  begin_listening-Good :
      (s : Setup)
      → IsPrepared s
      → IsFirst x.bind x.quit 0 s.attempts
      → s.attempts < 120
      → Always (begin_listening pem x s) Good
  unfolding begin_listening Good
  begin_listening-Good s p port few = elim (Bool-cases x.listen) [
    | inl l ↦ simp l (launch-Good x.connection_add s refl p port few l)
    | inr l ↦ simp l (Always-ok Good _ (λ h. cc))
  ]

  after_bind-Good :
      (s : Setup) (r : ℕ × Bound)
      → IsPrepared s
      → bind_loop x.bind x.quit port_bind_attempts 0 ≡ r
      → Always (after_bind pem x s r) Good
  unfolding after_bind Good
  after_bind-Good s (n, bound) p e =
      let (port, few) = bind_loop-IsFirst x.bind x.quit port_bind_attempts 0 n e in
      begin_listening-Good _
        (record {
          cores = p.cores;
          database = p.database;
          ssl = p.ssl;
          sock = p.sock;
          message_queue = p.message_queue;
          client_map = p.client_map;
        })
        port few
  after_bind-Good s (n, quitted) p e = Always-ok Good _ (λ h. cc)
  after_bind-Good s (n, unbound) p e = Always-ok Good _ (λ h. cc)

  serve-Good :
      (s : Setup)
      → (x.nprocs == 1) ≡ false
      → (setup_db x.open_ok x.exec_ok no_calls).1 ≡ database_create_success
      → init_ssl pem x.tls t ≡ ok (s.tls, returned 4000)
      → s.sock ≡ true
      → Always (serve pem x s) Good
  unfolding serve make_queue Good
  serve-Good s cores database ssl sock = elim (Bool-cases x.queue_memory) [
    | inl good ↦ simp good (
        after_bind-Good _ _
          (record {
            cores = cores;
            database = database;
            ssl = ssl;
            sock = sock;
            message_queue = refl;
            client_map = refl;
          })
          refl)
    | inr bad ↦ simp bad (λ r run. cc)
  ]

  after_ssl-Good :
      (s : Setup) (r : Tls × Outcome)
      → (x.nprocs == 1) ≡ false
      → (setup_db x.open_ok x.exec_ok no_calls).1 ≡ database_create_success
      → init_ssl pem x.tls t ≡ ok r
      → s.sock ≡ true
      → Always (after_ssl pem x s r) Good
  unfolding after_ssl Good
  after_ssl-Good s (t', exited) cores database ssl sock = Always-ok Good _ (λ h. cc)
  after_ssl-Good s (t', returned code) cores database ssl sock = elim (Bool-cases (code == 4000)) [
    | inl good ↦
        let same : code ≡ 4000 = (==_iff code 4000).0 good in
        simp good (serve-Good (record s { tls = t' }) cores database (rw (sym same) ssl) sock)
    | inr bad ↦ simp bad (Always-ok Good _ (λ h. cc))
  ]

  open_socket-Good :
      (s : Setup)
      → (x.nprocs == 1) ≡ false
      → (setup_db x.open_ok x.exec_ok no_calls).1 ≡ database_create_success
      → s.tls ≡ t
      → Always (open_socket pem x s) Good
  unfolding open_socket Good
  open_socket-Good s cores database same = elim (Bool-cases x.socket) [
    | inr bad ↦ simp bad (Always-ok Good _ (λ h. cc))
    | inl good ↦ simp good (
        Always-then (λ r. init_ssl pem x.tls t ≡ ok r) Good (init_ssl pem x.tls s.tls) _
          (λ r run. rw (sym same) run)
          (λ r run. after_ssl-Good (record s { sock = true }) r cores database run refl))
  ]

  run_server-Good : Always (run_server pem x t) Good
  unfolding run_server after_db Good
  run_server-Good = elim (Bool-cases (x.nprocs == 1)) [
    | inl single ↦ simp single (Always-ok Good _ (λ h. cc))
    | inr cores ↦
        let result = setup_db x.open_ok x.exec_ok no_calls in
        elim (Bool-cases (result.1 == database_create_success)) [
          | inl good ↦
              simp (cores, good)
                (open_socket-Good (record (nothing_set t) { db = result.0 }) cores
                  ((==_iff result.1 database_create_success).0 good) refl)
          | inr bad ↦ simp (cores, bad) (Always-ok Good _ (λ h. cc))
        ]
  ]

  -- Where run_server comes to its last loop, there is more than one core, the tables of the database
  -- were made, init_ssl has succeeded, the socket is open, the queue is empty, the table is what
  -- hash_map_create gave, which may be NULL, at most 119 attempts to bind had failed before the first
  -- that succeeded, with no flag seen, and all five ids are stored, those of threads that could not be
  -- started, too.
  pub run_server-IsUp : (s : Setup) → run_server pem x t ≡ ok (s, running) → IsUp s
  unfolding Good
  run_server-IsUp s run = run_server-Good (s, running) run refl
