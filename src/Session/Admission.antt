-- ===== src/Session/Admission.antt =====
-- Who gets into the table of the server.
use secure_chat.Prelude.{
  List, ℕ, ◌+◌, ◌==◌, ◌≡◌, refl, sym, subst, ◌∙◌, Bool, true, false, ◌&&◌, not, Option, none, some,
  [], ◌∷◌, inl, inr, Bool-cases, Text, Always, Always-ok, Always-bind, Always-then, ok, arith,
}
use secure_chat.Connection.{Ptr, Store, ClientConnection, write, write_self}
use secure_chat.HashMap.{HashMap, Node, Chain, nothing_held, hash_map_insert, decrement}
use secure_chat.HashMap.Walk.{run_over, all_nodes, hash_map_iterate-run_over}
use secure_chat.Protocol.{Message}
use secure_chat.Protocol.Number.{ℤ}
use secure_chat.Protocol.Codes.{message_user_join}
use secure_chat.Protocol.Create.{Env, text, create_message}
use secure_chat.Protocol.Wire.{Ssl}
use secure_chat.Server.{
  Server, server_name, uid_arg, with_message, enqueue, send_join_message, announce,
}
use secure_chat.Auth.Dialog.{Db, Asked, Wire}
use secure_chat.Auth.Turn.{user_auth, user_authentication_success}
use secure_chat.Auth.Outcome.{IsProven, IsProven-same}
use secure_chat.Auth.Outcome.Loop.{user_auth-Authenticated}
use secure_chat.Session.{
  Session, Standing, serving, int_of_size, set_fields, authenticate, joined, inserted,
  insert_client, let_in, admit,
}

abbrev Keeps : {ssl : Ssl} → Server ssl → Server ssl → Type 0
Keeps a b = (b.clients ≡ a.clients) × (b.client_map ≡ a.client_map)

with_message-Keeps :
    (env : Env) (ssl : Ssl) (malloc : Option Message) (srv : Server ssl) (made : Option Message)
    → Keeps srv (with_message env ssl malloc srv made)
with_message-Keeps env ssl malloc srv none = (refl, refl)
with_message-Keeps env ssl malloc srv (some m) = (refl, refl)

enqueue-Keeps :
    (env : Env) (ssl : Ssl) (malloc : Option Message) (type : ℤ) (uid : Option Text)
    (payload : Text) (srv : Server ssl)
    → Always (enqueue env ssl malloc type uid payload srv) (λ v. Keeps srv v)
unfolding enqueue
enqueue-Keeps env ssl none type uid payload srv = Always-ok _ _ (refl, refl)
enqueue-Keeps env ssl (some fresh) type uid payload srv =
    Always-bind _
      (create_message env (some fresh) type (text server_name) (uid_arg uid) (text payload)) _
      λ (made, code). Always-ok _ _ (with_message-Keeps env ssl (some fresh) srv made)

module _ (env : Env) (ssl : Ssl) (malloc : Option Message) where
  send_join_message-Keeps :
      (cl : Ptr) (n : Node) (srv : Server ssl)
      → Always (send_join_message env ssl malloc cl n srv) (λ v. Keeps srv v)
  unfolding send_join_message
  send_join_message-Keeps cl none srv = λ v e. cc
  send_join_message-Keeps cl (some p) srv =
      elim (Bool-cases ((srv.clients p).is_ready && not (p == cl))) [
        | inl told ↦ rw told (enqueue-Keeps env ssl malloc message_user_join _ _ srv)
        | inr left_out ↦ rw left_out (Always-ok _ _ (refl, refl))
      ]

  run_over-Keeps :
      (cl : Ptr) (c : Chain) (srv : Server ssl)
      → Always (run_over (send_join_message env ssl malloc cl) c srv) (λ v. Keeps srv v)
  run_over-Keeps cl [] srv = Always-ok _ _ (refl, refl)
  run_over-Keeps cl (n ∷ c) srv =
      Always-then _ (λ v. Keeps srv v) (send_join_message env ssl malloc cl n srv) _
        (send_join_message-Keeps cl n srv)
        λ srv1 (a, b) v e. let (c1, d1) = run_over-Keeps cl c srv1 v e in (c1 ∙ a, d1 ∙ b)

  -- The join messages change nothing but the queue.
  announce-Keeps :
      (cl : Ptr) (srv : Server ssl) → Always (announce env ssl malloc cl srv) (λ v. Keeps srv v)
  unfolding announce
  announce-Keeps cl srv v e =
      run_over-Keeps cl (all_nodes srv.client_map.hash_table) srv v (
        sym (hash_map_iterate-run_over (send_join_message env ssl malloc cl) srv.client_map srv)
        ∙ e)

-- From `σ` on only the structure `cl` was written, and it keeps its UID and is ready.
abbrev pub IsReady : Ptr → Store → Store → Type 0
IsReady cl σ τ =
    (c d : ClientConnection) × (τ ≡ write (write σ cl c) cl d)
    × (d.uid ≡ (σ cl).uid)
    × (d.is_ready ≡ true)

-- Refused or not inserted, the table is as it was. A client that is served has been inserted by a name and
-- a UID that the authentication has proven, and they stand in its structure.
pub record Admitted {ssl : Ssl} (env : Env) (malloc_ok : Bool) (cl : Ptr) (s : Session ssl)
    (r : Session ssl × Standing) : Type 0 where
  pub shut : ¬ (r.1 ≡ serving) → r.0.srv.client_map ≡ s.srv.client_map
  pub proven : r.1 ≡ serving → IsProven r.0.asked env.evp (r.0.srv.clients cl)
  pub entered :
      r.1 ≡ serving
      → (σ : Store) × IsReady cl σ r.0.srv.clients
        × ((n : ℕ) × ((n == 0) ≡ false)
            × (hash_map_insert malloc_ok σ nothing_held s.srv.client_map cl
                ≡ ok (r.0.srv.client_map, n)))
  pub requests : r.0.requests_handled ≡ s.requests_handled + 1

module _ (env : Env) (ssl : Ssl) (db : Db) (malloc : Option Message) (malloc_ok : Bool)
    (req cl : Ptr) where
  -- The fields that are set are neither the UID nor the username.
  set_fields-IsProven :
      (asked : List Asked) (ready inserted : Bool) (id : ℤ) (srv : Server ssl)
      → IsProven asked env.evp (srv.clients cl)
      → IsProven asked env.evp
          ((set_fields env ssl db malloc malloc_ok req cl ready inserted id srv).clients cl)
  unfolding set_fields
  set_fields-IsProven asked ready inserted id srv p =
      let c : ClientConnection = record (srv.clients cl) {
        is_ready = ready;
        is_inserted = inserted;
        id = id;
      } in
      subst (IsProven asked env.evp) (sym (write_self srv.clients cl c))
        (IsProven-same asked env.evp (srv.clients cl) c refl refl p)

  joined-IsProven :
      (count : ℕ) (s : Session ssl)
      → IsProven s.asked env.evp (s.srv.clients cl)
      → Always (joined env ssl db malloc malloc_ok req cl count s) (λ v.
        IsProven v.asked env.evp (v.srv.clients cl)
        × (v.srv.client_map ≡ s.srv.client_map)
        × (v.requests_handled ≡ s.requests_handled)
        × IsReady cl s.srv.clients v.srv.clients)
  unfolding joined set_fields
  joined-IsProven count s p =
      let id = int_of_size (decrement count) in
      let srv1 = set_fields env ssl db malloc malloc_ok req cl false true id s.srv in
      Always-then _ _ (announce env ssl malloc cl srv1) _ (announce-Keeps env ssl malloc cl srv1)
        λ srv2 (same, map). Always-ok _ _ (
          set_fields-IsProven s.asked true true id srv2 (
              subst (λ σ. IsProven s.asked env.evp (σ cl)) (sym same)
                (set_fields-IsProven s.asked false true id s.srv p)),
          map,
          refl,
          (
            record (s.srv.clients cl) { is_ready = false; is_inserted = true; id = id },
            record (srv2.clients cl) { is_ready = true; is_inserted = true; id = id },
            rw same refl,
            rw
                (
                  same,
                  write_self s.srv.clients cl
                      (record (s.srv.clients cl) { is_ready = false; is_inserted = true; id = id }),
                )
                refl,
            refl,
          ),
        )

  -- What holds of the session behind the authentication.
  abbrev Known : Session ssl → Session ssl × Ptr × ℕ → Type 0
  Known s r =
      (r.0.srv.client_map ≡ s.srv.client_map)
      × (r.0.requests_handled ≡ s.requests_handled + 1)
      × (r.2 ≡ user_authentication_success → IsProven r.0.asked env.evp (r.0.srv.clients r.1))

  authenticate-Known :
      (open_ok : ℕ → Bool) (handle : db.State) (s : Session ssl)
      → Always (authenticate env ssl db malloc malloc_ok req cl open_ok handle s) (Known s)
  unfolding authenticate set_fields
  authenticate-Known open_ok handle s =
      let srv0 =
        set_fields env ssl db malloc malloc_ok req cl false false (s.srv.clients cl).id s.srv in
      let w : Wire ssl = record { connection = srv0.connection req; msg = s.msg } in
      Always-then _ _
        (user_auth env ssl db malloc_ok req srv0.client_map open_ok handle cl srv0.clients w) _
        (user_auth-Authenticated env ssl db malloc_ok req srv0.client_map open_ok handle cl
          srv0.clients w)
        λ (v, a, code) end. Always-ok _ _ (refl, refl, end.proven)

  inserted-Admitted :
      (r : HashMap × ℕ) (s t : Session ssl)
      → t.srv.client_map ≡ s.srv.client_map
      → t.requests_handled ≡ s.requests_handled + 1
      → IsProven t.asked env.evp (t.srv.clients cl)
      → hash_map_insert malloc_ok t.srv.clients nothing_held s.srv.client_map cl ≡ ok r
      → Always
          (inserted env ssl db malloc malloc_ok req cl r t)
          (λ v. Admitted env malloc_ok cl s v)
  unfolding inserted
  inserted-Admitted (m, code) s t map counted p run = elim (Bool-cases (code == 0)) [
    | inl failed ↦ rw failed (
        Always-ok _ _
          (record { shut = λ n. map; proven = λ e. cc; entered = λ e. cc; requests = counted }))
    | inr good ↦
        let t1 : Session ssl = record t { srv = record t.srv { client_map = m } } in
        rw good (
          Always-then _ _ (joined env ssl db malloc malloc_ok req cl m.current_elements t1) _
            (joined-IsProven m.current_elements t1 p)
            λ v (q, same, n, here). Always-ok _ _ (record {
              shut = λ no. absurd (no refl);
              proven = λ e. q;
              entered = λ e. (t.srv.clients, here, (code, good, rw same run));
              requests = n ∙ counted;
            }))
  ]

  insert_client-Admitted :
      (written : Ptr) (s t : Session ssl)
      → t.srv.client_map ≡ s.srv.client_map
      → t.requests_handled ≡ s.requests_handled + 1
      → IsProven t.asked env.evp (t.srv.clients written)
      → Always
          (insert_client env ssl db malloc malloc_ok req cl written t)
          (λ v. Admitted env malloc_ok cl s v)
  unfolding insert_client
  insert_client-Admitted written s t map counted p = elim (Bool-cases (written == cl)) [
    | inr other ↦ rw other (λ v e. cc)
    | inl own ↦
        let here : written ≡ cl = ground arith in
        rw own (
          Always-then
            (λ r. hash_map_insert malloc_ok t.srv.clients nothing_held t.srv.client_map cl ≡ ok r) _
            (hash_map_insert malloc_ok t.srv.clients nothing_held t.srv.client_map cl) _ (λ v e. e)
            λ r run.
              inserted-Admitted r s t map counted
                (subst (λ q. IsProven t.asked env.evp (t.srv.clients q)) here p)
                (subst (λ m. hash_map_insert malloc_ok t.srv.clients nothing_held m cl ≡ ok r) map
                  run))
  ]

  let_in-Admitted :
      (s : Session ssl) (r : Session ssl × Ptr × ℕ)
      → Known s r
      → Always (let_in env ssl db malloc malloc_ok req cl r) (λ v. Admitted env malloc_ok cl s v)
  unfolding let_in
  let_in-Admitted s (t, written, code) (map, counted, p) =
      elim (Bool-cases (code == user_authentication_success)) [
        | inl success ↦
            rw success (insert_client-Admitted written s t map counted (p (ground arith)))
        | inr failure ↦ rw failure (
            Always-ok _ _
              (record { shut = λ n. map; proven = λ e. cc; entered = λ e. cc; requests = counted }))
      ]

  -- Whatever the client sends: where `handle_client` comes to its loop, an insertion of the client's
  -- structure into the table has succeeded; the structure still has the UID of that insertion, is ready,
  -- and is the only one that was written since; and among the statements of its authentication is the login that found a
  -- row with that UID for its name and the hash of a password, or the insertion of its name with them.
  -- Where it does not come there, the table is as it was. Either way the request was counted once.
  pub admit-Admitted :
      (open_ok : ℕ → Bool) (handle : db.State) (s : Session ssl)
      → Always
          (admit env ssl db malloc malloc_ok req cl open_ok handle s)
          (λ r. Admitted env malloc_ok cl s r)
  unfolding admit
  admit-Admitted open_ok handle s =
      Always-then _ _ (authenticate env ssl db malloc malloc_ok req cl open_ok handle s) _
        (authenticate-Known open_ok handle s) λ r known. let_in-Admitted s r known
