-- ===== src/Auth/Outcome/Loop.antt =====
-- The outcome of `user_auth`, by the turns of its loop.
use secure_chat.Prelude.{
  ℕ, zero, suc, ◌+◌, ◌≤◌, ◌≡◌, refl, ap, ◌∙◌, Bool, inl, inr, Bool-cases, arith, Always, Always-ok,
  Always-then, Run, ◌⊎◌,
}
use secure_chat.Connection.{Ptr, Store}
use secure_chat.Database.{Calls}
use secure_chat.Database.Handles.{connect_db-Balance}
use secure_chat.HashMap.{HashMap}
use secure_chat.Protocol.Create.{Env}
use secure_chat.Protocol.Wire.{Ssl}
use secure_chat.Auth.Dialog.{
  Db, Turn, again, cleanup, success, username_failure, memory_failure, Wire, Account, finalize,
  close_db,
}
use secure_chat.Auth.Outcome.{logins, IsProven, Outcome}
use secure_chat.Auth.Outcome.Turned.{turn-Outcome}
use secure_chat.Auth.Login.{user_login_attempts}
use secure_chat.Auth.Turn.{
  start, turn, finalize_open, free_uid, clean, leave, auth_loop, user_auth,
  user_authentication_success, user_authentication_failure,
  user_authentication_database_connection_failure, user_authentication_username_receive_failure,
  user_authentication_memory_allocation_failure,
}

-- From `a` on, with so many turns left: the comparisons, and what is open and what is shown for each
-- return code.
pub record Ended {db : Db} {ssl : Ssl} (env : Env) (left : ℕ) (a : Account db)
    (r : Wire ssl × Account db × ℕ) : Type 0 where
  pub opened : r.1.calls.opens ≡ a.calls.opens
  pub compared : logins r.1.queries ≤ logins a.queries + left
  pub proven : r.2 ≡ user_authentication_success → IsProven r.1.queries env.evp (r.1.clients r.1.cl)
  pub released :
      (r.2 ≡ user_authentication_success) ⊎ (r.2 ≡ user_authentication_memory_allocation_failure)
      → r.1.calls.closes ≡ a.calls.closes + 1
  pub leaked :
      r.2 ≡ user_authentication_username_receive_failure → r.1.calls.closes ≡ a.calls.closes
  pub failed :
      r.2 ≡ user_authentication_failure
      → (a.calls.closes + 1 ≤ r.1.calls.closes) × (r.1.calls.closes ≤ a.calls.closes + 2)
  pub reached : ¬ (r.2 ≡ user_authentication_database_connection_failure)

module _ (env : Env) (ssl : Ssl) (db : Db) (malloc : Bool) (req : Ptr) (user_map : HashMap) where
  free_uid-same :
      (a : Account db)
      → Always
          (free_uid env ssl db malloc req user_map a)
          (λ b. (b.calls ≡ a.calls) × (b.queries ≡ a.queries))
  unfolding free_uid
  free_uid-same a b e = elim (Bool-cases a.uid_written) [
    | inl written ↦ ground arith
    | inr never ↦ ground arith
  ]

  finalize_open-same :
      (a : Account db)
      → ((finalize_open env ssl db malloc req user_map a).calls ≡ a.calls)
        × ((finalize_open env ssl db malloc req user_map a).queries ≡ a.queries)
  unfolding finalize_open finalize
  finalize_open-same a = elim (Bool-cases a.statement) [
    | inl prepared ↦ ground arith
    | inr shut ↦ ground arith
  ]

  clean-same :
      (w : Wire ssl) (a : Account db)
      → Always (clean env ssl db malloc req user_map w a) (λ r.
        (r.1.calls.opens ≡ a.calls.opens)
        × (r.1.calls.closes ≡ a.calls.closes + 1)
        × (r.1.queries ≡ a.queries)
        × (r.2 ≡ user_authentication_failure))
  unfolding clean close_db
  clean-same w a =
      let same = finalize_open-same a in
      let shut = finalize_open env ssl db malloc req user_map a in
      Always-then _ _ (free_uid env ssl db malloc req user_map shut) _ (free_uid-same shut)
        λ b (calls, queries). Always-ok _ _ (
          ap (λ (c : Calls). c.opens) (calls ∙ same.0),
          omega (arith, ap (λ (c : Calls). c.closes) (calls ∙ same.0)),
          queries ∙ same.1,
          refl,
        )

  -- Where the loop is left, with `left` turns to come.
  leave-Ended :
      (left : ℕ) (a : Account db) (next : Wire ssl → Account db → Run (Wire ssl × Account db × ℕ))
      (r : Wire ssl × Account db × Turn)
      → Outcome env.evp 1 a r
      → ((w : Wire ssl) (b : Account db) → Always (next w b) (λ v. Ended env left b v))
      → Always (leave env ssl db malloc req user_map next r) (λ v. Ended env (suc left) a v)
  unfolding leave
  leave-Ended left a next (w, b, again) out rest v e =
      let more = rest w b v e in
      record {
        opened = more.opened ∙ out.opened;
        compared = omega (arith, more.compared, out.compared);
        proven = more.proven;
        released = λ c. omega (arith, more.released c, out.closed);
        leaked = λ c. omega (arith, more.leaked c, out.closed);
        failed = λ c.
            (omega (arith, more.failed c, out.closed), omega (arith, more.failed c, out.closed));
        reached = more.reached;
      }
  leave-Ended left a next (w, b, cleanup) out rest v e =
      let (opens, closes, queries, code) = clean-same w b v e in
      record {
        opened = opens ∙ out.opened;
        compared = rw queries (omega (arith, out.compared));
        proven = λ c. absurd (omega arith);
        released = λ c. omega (arith, closes, out.closed);
        leaked = λ c. absurd (omega arith);
        failed = λ c. (omega (arith, closes, out.closed), omega (arith, closes, out.closed));
        reached = λ c. absurd (omega arith);
      }
  leave-Ended left a next (w, b, success) out rest v e =
      Always-ok (λ u. Ended env (suc left) a u) _
        (record {
          opened = out.opened;
          compared = omega (arith, out.compared);
          proven = λ c. out.proven;
          released = λ c. out.closed;
          leaked = λ c. absurd (omega arith);
          failed = λ c. absurd (omega arith);
          reached = λ c. absurd (omega arith);
        })
        v e
  leave-Ended left a next (w, b, username_failure) out rest v e =
      Always-ok (λ u. Ended env (suc left) a u) _
        (record {
          opened = out.opened;
          compared = omega (arith, out.compared);
          proven = λ c. absurd (omega arith);
          released = λ c. elim c [ inl x ↦ absurd (omega arith) | inr y ↦ absurd (omega arith) ];
          leaked = λ c. omega (arith, out.closed);
          failed = λ c. absurd (omega arith);
          reached = λ c. absurd (omega arith);
        })
        v e
  leave-Ended left a next (w, b, memory_failure) out rest v e =
      Always-ok (λ u. Ended env (suc left) a u) _
        (record {
          opened = out.opened;
          compared = omega (arith, out.compared);
          proven = λ c. absurd (omega arith);
          released = λ c. out.closed;
          leaked = λ c. absurd (omega arith);
          failed = λ c. absurd (omega arith);
          reached = λ c. absurd (omega arith);
        })
        v e

  auth_loop-Ended :
      (left attempts : ℕ) (w : Wire ssl) (a : Account db)
      → Always
          (auth_loop env ssl db malloc req user_map left attempts w a)
          (λ v. Ended env left a v)
  unfolding auth_loop close_db
  auth_loop-Ended zero attempts w a v e =
      let (opens, closes, queries, code) = clean-same w (close_db db a) v e in
      record {
        opened = opens;
        compared = rw queries (omega arith);
        proven = λ c. absurd (omega arith);
        released = λ c. elim c [ inl x ↦ absurd (omega arith) | inr y ↦ absurd (omega arith) ];
        leaked = λ c. absurd (omega arith);
        failed = λ c. (omega (arith, closes), omega (arith, closes));
        reached = λ c. absurd (omega arith);
      }
  auth_loop-Ended (suc left) attempts w a v e =
      Always-then _ _ (turn env ssl db malloc req user_map attempts w a) _
        (turn-Outcome env ssl db malloc req user_map attempts w a)
        (λ r out. leave-Ended left a _ r out (λ w1 b. auth_loop-Ended left (suc attempts) w1 b)) v e

-- A dialog that `user_auth` returns from: at most three comparisons of a password, of a success the
-- proof in the structure, and for each return code how many handles of the database are left.
pub record Authenticated {db : Db} {ssl : Ssl} (env : Env) (r : Wire ssl × Account db × ℕ)
    : Type 0 where
  pub compared : logins r.1.queries ≤ user_login_attempts
  pub proven : r.2 ≡ user_authentication_success → IsProven r.1.queries env.evp (r.1.clients r.1.cl)
  pub released :
      (r.2 ≡ user_authentication_success) ⊎ (r.2 ≡ user_authentication_memory_allocation_failure)
      → r.1.calls.opens ≡ r.1.calls.closes
  pub leaked :
      r.2 ≡ user_authentication_username_receive_failure → r.1.calls.opens ≡ r.1.calls.closes + 1
  pub failed :
      r.2 ≡ user_authentication_failure
      → (r.1.calls.opens ≤ r.1.calls.closes) × (r.1.calls.closes ≤ r.1.calls.opens + 1)
  pub unopened :
      r.2 ≡ user_authentication_database_connection_failure → r.1.calls.closes ≡ r.1.calls.opens + 1

not_opened :
    {db : Db} {ssl : Ssl} (env : Env) (w : Wire ssl) (a : Account db)
    → logins a.queries ≤ 0
    → a.calls.closes ≡ a.calls.opens + 1
    → Authenticated {db = db} {ssl = ssl} env
        (w, a, user_authentication_database_connection_failure)
not_opened env w a few more = record {
  compared = omega arith;
  proven = λ c. absurd (omega arith);
  released = λ c. elim c [ inl x ↦ absurd (omega arith) | inr y ↦ absurd (omega arith) ];
  leaked = λ c. absurd (omega arith);
  failed = λ c. absurd (omega arith);
  unopened = λ c. more;
}

opened_once :
    {db : Db} {ssl : Ssl} (env : Env) (a : Account db) (r : Wire ssl × Account db × ℕ)
    → logins a.queries ≤ 0
    → a.calls.opens ≡ a.calls.closes + 1
    → Ended env user_login_attempts a r
    → Authenticated env r
opened_once env a r few one end = record {
  compared = omega (arith, end.compared);
  proven = end.proven;
  released = λ c. omega (arith, end.released c, end.opened);
  leaked = λ c. omega (arith, end.leaked c, end.opened);
  failed = λ c. (omega (arith, end.failed c, end.opened), omega (arith, end.failed c, end.opened));
  unopened = λ c. absurd (end.reached c);
}

-- Wherever `user_auth` returns, whatever the client sends and SQLite answers, it has compared at most
-- three passwords. With success the structure behind `cl` holds a UID and a name, and among the statements
-- that were carried out is a login that found a row with that UID for the name and the hash of a password,
-- or the insertion of the name, with its own hash as the UID, and the hash of a password; and as
-- many handles were closed as opened, as where the memory of the UID was missing. Where no username could be
-- read one handle is left open, and a failed authentication has closed at least as many handles as it
-- opened and at most one more. Where the database could not be opened it has closed one handle more.
pub user_auth-Authenticated :
    (env : Env) (ssl : Ssl) (db : Db) (malloc : Bool) (req : Ptr) (user_map : HashMap)
    (open_ok : ℕ → Bool) (handle : db.State) (cl : Ptr) (clients : Store) (w : Wire ssl)
    → Always
        (user_auth env ssl db malloc req user_map open_ok handle cl clients w)
        (λ r. Authenticated env r)
unfolding user_auth start
user_auth-Authenticated env ssl db malloc req user_map open_ok handle cl clients w =
    let a = start db handle open_ok cl clients in
    elim (connect_db-Balance open_ok).0 [
      | inl (good, one) ↦ rw good (λ v e.
          opened_once env a v (omega arith) one
            (auth_loop-Ended env ssl db malloc req user_map user_login_attempts 0 w a v e))
      | inr (bad, more) ↦ rw bad (Always-ok _ _ (not_opened env w a (omega arith) more))
    ]
