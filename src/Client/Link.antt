-- ===== src/Client/Link.antt =====
-- The connection of the client to its server: client/src/client_openssl.c, and connect_to_server,
-- cleanup_client_connection and attempt_reconnection of client/src/client.c.
pub mod Lifetime
use secure_chat.Prelude.{
  ℕ, suc, ◌+◌, ◌==◌, ◌||◌, not, Bool, true, false, Option, none, some, List, [], ◌∷◌, if◌then◌else◌,
  Text, Run, ok, fault, bad_pointer, null_pointer, ◌>>=◌,
}
use secure_chat.Client.{ClientState, reset_state}

-- The handles of `client`: `none` is NULL, and -1 for the socket. Behind them what is allocated, by
-- numbers that are never used again: the SSL objects, the references to a context, and the sockets.
pub record Handles : Type 0 where
  pub ssl : Option ℕ
  pub ssl_ctx : Option ℕ
  pub sock : Option ℕ
  pub uid : Option Text
  pub live_ssl : List ℕ
  pub live_ctx : List ℕ
  pub open_sockets : List ℕ
  pub next : ℕ

-- What the system and OpenSSL answer in an attempt.
pub record Attempt : Type 0 where
  pub socket : Bool
  pub connects : Bool
  pub ctx_new : Bool
  pub ssl_new : Bool
  pub handshake : Bool

abbrev pub openssl_init_success : ℕ
openssl_init_success = 9000

abbrev pub openssl_ssl_ctx_creation_failure : ℕ
openssl_ssl_ctx_creation_failure = 9001

abbrev pub openssl_ssl_object_failure : ℕ
openssl_ssl_object_failure = 9002

-- `free` of an object that is not allocated is undefined; `close` of a closed socket is an error.
unfoldable pub release : ℕ → List ℕ → Run (List ℕ)
release n [] = fault bad_pointer
release n (x ∷ xs) = let rest = release n xs in if n == x then ok xs else (rest >>= λ r. ok (x ∷ r))

unfoldable pub close : ℕ → List ℕ → List ℕ
close n [] = []
close n (x ∷ xs) = let rest = close n xs in if n == x then xs else x ∷ rest

-- `SSL_free` behind `SSL_shutdown`, which uses the object, too.
unfoldable pub ssl_free : Option ℕ → Handles → Run Handles
ssl_free none h = ok h
ssl_free (some n) h = release n h.live_ssl >>= λ l. ok (record h { live_ssl = l })

unfoldable pub ctx_free : Option ℕ → Handles → Run Handles
ctx_free none h = ok h
ctx_free (some n) h = release n h.live_ctx >>= λ l. ok (record h { live_ctx = l })

unfoldable pub close_sock : Option ℕ → Handles → Handles
close_sock none h = h
close_sock (some n) h = record h { open_sockets = close n h.open_sockets }

-- `SSL_shutdown` takes no NULL.
unfoldable pub ssl_shutdown : Option ℕ → Run (Unit {0})
ssl_shutdown none = fault null_pointer
ssl_shutdown (some n) = ok tt

-- It leaves the handles as they are.
unfoldable pub destroy_ssl : Handles → Run Handles
destroy_ssl h = do
  _ ← ssl_shutdown h.ssl
  h1 ← ssl_free h.ssl h
  h2 ← ctx_free h.ssl_ctx h1
  ok (close_sock h.sock h2)

unfoldable pub new_ssl : Bool → Handles → Run (Handles × ℕ)
new_ssl true h = ok (
  record h { ssl = some h.next; live_ssl = h.next ∷ h.live_ssl; next = suc h.next },
  openssl_init_success,
)
new_ssl false h =
    destroy_ssl (record h { ssl = none }) >>= λ h1. ok (h1, openssl_ssl_object_failure)

unfoldable pub init_ssl : Attempt → Handles → Run (Handles × ℕ)
init_ssl a h =
    if a.ctx_new
    then new_ssl a.ssl_new
        (record h { ssl_ctx = some h.next; live_ctx = h.next ∷ h.live_ctx; next = suc h.next })
    else ok (record h { ssl_ctx = none }, openssl_ssl_ctx_creation_failure)

unfoldable pub cleanup_client_connection : Handles → Run Handles
cleanup_client_connection h = do
  h1 ← ssl_free h.ssl h
  h2 ← ctx_free h.ssl_ctx h1
  ok (record (close_sock h.sock h2) { ssl = none; ssl_ctx = none; sock = none; uid = none })

-- `SSL_connect`; where it fails, the handles keep what was freed and closed.
unfoldable pub shake : Bool → Handles → Run (Handles × Bool)
shake true h = ok (h, true)
shake false h = ssl_free h.ssl h >>= λ h1. ok (close_sock h.sock h1, false)

unfoldable pub after_init : Attempt → Handles × ℕ → Run (Handles × Bool)
after_init a (h, result) =
    if result == openssl_init_success
    then shake a.handshake h
    else (cleanup_client_connection h >>= λ h1. ok (h1, false))

unfoldable pub secure : Attempt → Handles → Run (Handles × Bool)
secure a h =
    if a.connects
    then (init_ssl a h >>= λ r. after_init a r)
    else ok (record (close_sock h.sock h) { sock = none }, false)

-- `true` where it returns 0.
unfoldable pub connect_to_server : Bool → Attempt → Handles → Run (Handles × Bool)
connect_to_server quit_flag a h =
    if quit_flag
    then ok (h, false)
    else if a.socket
    then secure a
        (record h { sock = some h.next; open_sockets = h.next ∷ h.open_sockets; next = suc h.next })
    else ok (record h { sock = none }, false)

-- What the threads of the client share.
pub record Link : Type 0 where
  pub handles : Handles
  pub state : ClientState
  pub reconnect_flag : Bool

unfoldable pub connected : Link → Handles × Bool → Link
connected l (h, true) = record l {
  handles = h;
  state = record l.state { is_connected = true };
  reconnect_flag = false;
}
connected l (h, false) = record l { handles = h }

-- A turn of attempt_reconnection.
unfoldable pub attempt_reconnection : Bool → Attempt → Link → Run Link
attempt_reconnection quit_flag a l =
    if l.reconnect_flag || not l.state.is_connected
    then (let h : Handles =
          if l.reconnect_flag then record l.handles { uid = none } else l.handles in
        let s = reset_state (record l.state { is_connected = false }) in
        connect_to_server quit_flag a h >>= λ r. ok (connected (record l { state = s }) r))
    else ok l
