-- ===== src/Session.antt =====
-- The thread of a client, `handle_client` of server/src/server.c: authentication, the insertion into the
-- table, the messages of the client, and its end.
pub mod Admission
use secure_chat.Prelude.{
  ℕ, ◌+◌, ◌-◌, ◌^◌, ◌%◌, ◌==◌, ltb, Bool, true, false, Option, none, some, List, [], ◌∷◌, ◌++◌,
  length, until_nul, behind_bytes, if◌then◌else◌, Text, Run, ok, fault, uninitialised, ◌>>=◌,
}
use secure_chat.Connection.{Ptr, Store, ClientConnection, write}
use secure_chat.HashMap.{HashMap, nothing_held, hash_map_insert, hash_map_erase, decrement}
use secure_chat.Protocol.{Message}
use secure_chat.Protocol.Number.{ℤ, pos, negsuc}
use secure_chat.Protocol.Create.{Env}
use secure_chat.Protocol.Wire.{Ssl}
use secure_chat.Server.{Server, request_of, set_connection, receive, announce, erase_uid}
use secure_chat.Auth.Dialog.{Db, Asked, Wire, Account}
use secure_chat.Auth.Turn.{user_auth, user_authentication_success}

-- A `size_t` as an `int`
abbrev pub int_of_size : ℕ → ℤ
int_of_size n = let k = n % 2 ^ 32 in if ltb k (2 ^ 31) then pos k else negsuc (2 ^ 32 - 1 - k)

-- The server with its two counters, the structure `msg` and the buffer of the thread, and what its authentication has
-- asked the database.
pub record Session (ssl : Ssl) : Type 0 where
  pub srv : Server ssl
  pub requests_handled : ℕ
  pub client_logins_handled : ℕ
  pub msg : Message
  pub buffer : Text
  pub asked : List Asked

-- How the thread stands: it has gone, refused or at the end of its connection, or the client is in.
pub data Standing : Type 0 where
  refused uninserted disconnected serving : Standing

-- `cl` is the local structure of the thread, `malloc` the memory of the messages, `malloc_ok` that of
-- the copies, of the UID and of the node.
module _ (env : Env) (ssl : Ssl) (db : Db) (malloc : Option Message) (malloc_ok : Bool)
    (req cl : Ptr) where
  unfoldable pub set_fields : Bool → Bool → ℤ → Server ssl → Server ssl
  set_fields ready inserted id srv = record srv {
    clients =
        write srv.clients cl
          (record (srv.clients cl) { is_ready = ready; is_inserted = inserted; id = id });
  }

  -- The authentication works on the connection of the request, and on the store that all share.
  unfoldable pub authenticate : (ℕ → Bool) → db.State → Session ssl → Run (Session ssl × Ptr × ℕ)
  authenticate open_ok handle s = do
    let srv0 = set_fields false false (s.srv.clients cl).id s.srv
    (w, a, code) ←
        user_auth env ssl db malloc_ok req srv0.client_map open_ok handle cl srv0.clients
          (record { connection = srv0.connection req; msg = s.msg })
    ok (
      record s {
        srv = record srv0 {
          clients = a.clients;
          connection = set_connection srv0.connection req w.connection;
        };
        requests_handled = s.requests_handled + 1;
        asked = a.queries;
      },
      a.cl,
      code,
    )

  -- Behind the insertion: the other clients are told, and the client is ready.
  unfoldable pub joined : ℕ → Session ssl → Run (Session ssl)
  joined count s = do
    let srv1 = set_fields false true (int_of_size (decrement count)) s.srv
    srv2 ← announce env ssl malloc cl srv1
    ok (record s {
      srv = set_fields true true (int_of_size (decrement count)) srv2;
      client_logins_handled = s.client_logins_handled + 1;
    })

  unfoldable pub inserted : HashMap × ℕ → Session ssl → Run (Session ssl × Standing)
  inserted (m, code) s = if code == 0 then ok (s, uninserted) else (do
    let s1 : Session ssl = record s { srv = record s.srv { client_map = m } }
    s2 ← joined m.current_elements s1
    ok (s2, serving))

  -- Where `user_auth` has gone on with another structure, nothing was written to the UID of this one.
  unfoldable pub insert_client : Ptr → Session ssl → Run (Session ssl × Standing)
  insert_client written s =
      if written == cl
      then (hash_map_insert malloc_ok s.srv.clients nothing_held s.srv.client_map cl >>= λ r.
          inserted r s)
      else fault uninitialised

  unfoldable pub let_in : Session ssl × Ptr × ℕ → Run (Session ssl × Standing)
  let_in (s, written, code) =
      if code == user_authentication_success then insert_client written s else ok (s, refused)

  unfoldable pub admit : (ℕ → Bool) → db.State → Session ssl → Run (Session ssl × Standing)
  admit open_ok handle s = authenticate open_ok handle s >>= λ r. let_in r

  -- `hash_map_erase` with the UID of the structure, where it was inserted.
  unfoldable pub disconnect : Session ssl → Run (Session ssl × Standing)
  disconnect s =
      if (s.srv.clients cl).is_inserted
      then (erase_uid env ssl malloc nothing_held (s.srv.clients cl).uid s.srv >>= λ srv.
          ok (record s { srv = srv }, disconnected))
      else ok (s, disconnected)

  -- The bytes that `SSL_read` put in front of what the buffer held; nothing ends them with a NUL.
  unfoldable pub take_line : Text → Session ssl → Run (Session ssl)
  take_line bytes s = do
    let held : Text = bytes ++ behind_bytes (length bytes) s.buffer
    (srv, m) ← receive env ssl malloc_ok cl (until_nul held) s.msg s.srv
    ok (record s { srv = srv; msg = m; buffer = held })

  -- One flag `quit_flag` for each turn of the loop.
  unfoldable pub serve : List Bool → Session ssl → Run (Session ssl × Standing)
  serve [] s = ok (s, serving)
  serve (quit ∷ quits) s = do
    r ← request_of (s.srv.clients cl)
    let (got, c) = ssl.read (s.srv.connection r)
    let s1 : Session ssl = record s {
      srv = record s.srv { connection = set_connection s.srv.connection r c };
    }
    elim got [
      | none ↦ disconnect s1
      | some bytes ↦ if quit then disconnect s1 else (take_line bytes s1 >>= λ s2. serve quits s2)
    ]

  -- The whole thread; a client that was not let in is not served.
  unfoldable pub served : List Bool → Session ssl × Standing → Run (Session ssl × Standing)
  served quits (s, refused) = ok (s, refused)
  served quits (s, uninserted) = ok (s, uninserted)
  served quits (s, disconnected) = ok (s, disconnected)
  served quits (s, serving) = serve quits s

  unfoldable pub handle_client :
      (ℕ → Bool) → db.State → List Bool → Session ssl → Run (Session ssl × Standing)
  handle_client open_ok handle quits s = admit open_ok handle s >>= λ r. served quits r
