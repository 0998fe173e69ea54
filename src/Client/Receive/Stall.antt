-- ===== src/Client/Receive/Stall.antt =====
-- What a reconnection does to the thread that reads.
use secure_chat.Prelude.{
  ℕ, suc, ◌==◌, ◌≡◌, refl, ◌∙◌, Bool, true, false, not, Option, none, some, List, [], ◌∷◌, inl, inr,
  Bool-cases, ok, Always, Always-ok, Always-bind, Always-then,
}
use secure_chat.Protocol.Create.{Env}
use secure_chat.Protocol.Wire.{Ssl}
use secure_chat.Client.Handler.{Session, returned}
use secure_chat.Client.Link.{
  Handles, Attempt, Link, connect_to_server, connected, attempt_reconnection, secure, init_ssl,
  new_ssl, destroy_ssl, after_init, shake, cleanup_client_connection, openssl_init_success, release,
  close_sock, ctx_free, ssl_free, ssl_shutdown,
}
use secure_chat.Client.Receive.{with_uid, receive_turn, next_turn, receive_messages}

module _ (env : Env) (ssl : Ssl) where
  receive_turn-idle :
      (has_ssl : Bool) (s : Session ssl)
      → s.cl.uid ≡ none
      → receive_turn env ssl has_ssl s ≡ ok (s, returned)
  unfolding receive_turn with_uid
  receive_turn-idle has_ssl s absent = elim (Bool-cases s.reconnect_flag) [
    | inl flagged ↦ simp flagged
    | inr clear ↦ elim (Bool-cases (not s.cl_state.is_connected)) [
      | inl away ↦ simp (clear, away)
      | inr here ↦ simp (clear, here, absent)
    ]
  ]

  receive_messages-idle :
      (turns : List Bool) (s : Session ssl)
      → s.cl.uid ≡ none
      → s.quit_flag ≡ false
      → receive_messages env ssl turns s ≡ ok (s, returned)
  unfolding receive_messages next_turn
  receive_messages-idle [] s absent going = refl
  receive_messages-idle (has_ssl ∷ turns) s absent going =
      simp (going, receive_turn-idle has_ssl s absent, receive_messages-idle turns s absent going)

abbrev Absent : Handles → Type 0
Absent h = h.uid ≡ none

ssl_free-Absent : (n : Option ℕ) (h : Handles) → Absent h → Always (ssl_free n h) Absent
unfolding ssl_free
ssl_free-Absent none h absent = Always-ok _ _ absent
ssl_free-Absent (some n) h absent = Always-bind _ (release n h.live_ssl) _ λ l. Always-ok _ _ absent

ctx_free-Absent : (n : Option ℕ) (h : Handles) → Absent h → Always (ctx_free n h) Absent
unfolding ctx_free
ctx_free-Absent none h absent = Always-ok _ _ absent
ctx_free-Absent (some n) h absent = Always-bind _ (release n h.live_ctx) _ λ l. Always-ok _ _ absent

close_sock-Absent : (n : Option ℕ) (h : Handles) → Absent h → Absent (close_sock n h)
unfolding close_sock
close_sock-Absent none h absent = absent
close_sock-Absent (some n) h absent = absent

destroy_ssl-Absent : (h : Handles) → Absent h → Always (destroy_ssl h) Absent
unfolding destroy_ssl
destroy_ssl-Absent h absent = Always-bind _ (ssl_shutdown h.ssl) _ λ _.
    Always-then _ _ (ssl_free h.ssl h) _ (ssl_free-Absent h.ssl h absent) λ h1 a1.
      Always-then _ _ (ctx_free h.ssl_ctx h1) _ (ctx_free-Absent h.ssl_ctx h1 a1)
        λ h2 a2. Always-ok _ _ (close_sock-Absent h.sock h2 a2)

cleanup-Absent : (h : Handles) → Always (cleanup_client_connection h) Absent
unfolding cleanup_client_connection
cleanup-Absent h =
    Always-bind _ (ssl_free h.ssl h) _
      λ h1. Always-bind _ (ctx_free h.ssl_ctx h1) _ λ h2. Always-ok _ _ refl

new_ssl-Absent : (y : Bool) (h : Handles) → Absent h → Always (new_ssl y h) (λ r. Absent r.0)
unfolding new_ssl
new_ssl-Absent true h absent = Always-ok _ _ absent
new_ssl-Absent false h absent =
    Always-then _ _ (destroy_ssl (record h { ssl = none })) _
      (destroy_ssl-Absent (record h { ssl = none }) absent) λ h1 a1. Always-ok _ _ a1

init_ssl-Absent : (a : Attempt) (h : Handles) → Absent h → Always (init_ssl a h) (λ r. Absent r.0)
unfolding init_ssl
init_ssl-Absent a h absent = elim (Bool-cases a.ctx_new) [
  | inl made ↦ simp made (
      new_ssl-Absent a.ssl_new
        (record h { ssl_ctx = some h.next; live_ctx = h.next ∷ h.live_ctx; next = suc h.next })
        absent)
  | inr refused ↦ simp refused (Always-ok _ _ absent)
]

shake-Absent : (z : Bool) (h : Handles) → Absent h → Always (shake z h) (λ r. Absent r.0)
unfolding shake
shake-Absent true h absent = Always-ok _ _ absent
shake-Absent false h absent =
    Always-then _ _ (ssl_free h.ssl h) _ (ssl_free-Absent h.ssl h absent)
      λ h1 a1. Always-ok _ _ (close_sock-Absent h.sock h1 a1)

after_init-Absent :
    (a : Attempt) (r : Handles × ℕ) → Absent r.0 → Always (after_init a r) (λ v. Absent v.0)
unfolding after_init
after_init-Absent a (h, result) absent = elim (Bool-cases (result == openssl_init_success)) [
  | inl good ↦ simp good (shake-Absent a.handshake h absent)
  | inr bad ↦
      simp bad (
        Always-then _ _ (cleanup_client_connection h) _ (cleanup-Absent h)
          λ h1 a1. Always-ok _ _ a1)
]

secure-Absent : (a : Attempt) (h : Handles) → Absent h → Always (secure a h) (λ r. Absent r.0)
unfolding secure
secure-Absent a h absent = elim (Bool-cases a.connects) [
  | inl good ↦ simp good (
      Always-then _ _ (init_ssl a h) _ (init_ssl-Absent a h absent)
        λ r a1. after_init-Absent a r a1)
  | inr bad ↦ simp bad (Always-ok _ _ (close_sock-Absent h.sock h absent))
]

-- Without a UID before the attempt there is none behind it.
connect_to_server-Absent :
    (quit_flag : Bool) (a : Attempt) (h : Handles)
    → Absent h
    → Always (connect_to_server quit_flag a h) (λ r. Absent r.0)
unfolding connect_to_server
connect_to_server-Absent true a h absent = Always-ok _ _ absent
connect_to_server-Absent false a h absent = elim (Bool-cases a.socket) [
  | inl good ↦ simp good (
      secure-Absent a
        (record h { sock = some h.next; open_sockets = h.next ∷ h.open_sockets; next = suc h.next })
        absent)
  | inr bad ↦ simp bad (Always-ok _ _ absent)
]

connected-Absent : (l : Link) (r : Handles × Bool) → Absent r.0 → Absent (connected l r).handles
unfolding connected
connected-Absent l (h, true) absent = absent
connected-Absent l (h, false) absent = absent

attempt_reconnection-Absent :
    (quit_flag : Bool) (a : Attempt) (l : Link)
    → l.reconnect_flag ≡ true
    → Always (attempt_reconnection quit_flag a l) (λ l'. Absent l'.handles)
unfolding attempt_reconnection
attempt_reconnection-Absent quit_flag a l lost =
    let h : Handles = record l.handles { uid = none } in
    simp lost (
      Always-then _ _ (connect_to_server quit_flag a h) _
        (connect_to_server-Absent quit_flag a h refl)
        λ r a1. Always-ok _ _ (connected-Absent _ r a1))

-- Where the connection was lost, the next attempt, whether it succeeds or not, leaves the client
-- without a UID. With that the thread that reads takes no line any more, however long it runs and
-- whatever the server sends, until the program is to end.
pub attempt_reconnection-stalled :
    (env : Env) (ssl : Ssl) (quit_flag : Bool) (a : Attempt) (l l' : Link) (turns : List Bool)
    (s : Session ssl)
    → l.reconnect_flag ≡ true
    → attempt_reconnection quit_flag a l ≡ ok l'
    → s.cl.uid ≡ l'.handles.uid
    → s.quit_flag ≡ false
    → receive_messages env ssl turns s ≡ ok (s, returned)
attempt_reconnection-stalled env ssl quit_flag a l l' turns s lost run same going =
    receive_messages-idle env ssl turns s
      (same ∙ attempt_reconnection-Absent quit_flag a l lost l' run) going
