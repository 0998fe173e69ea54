-- ===== src/Auth/Outcome.antt =====
-- What a turn of `user_auth` does to the handles of the database, how often it compares a password, and
-- what a success rests on.
pub mod Registered
pub mod LoggedIn
pub mod Turned
pub mod Loop
use secure_chat.Prelude.{
  ℕ, zero, suc, ◌+◌, ◌≤◌, ◌≡◌, refl, sym, Bool-cases, inl, inr, none, Bool, true, false,
  if◌then◌else◌, subst, ◌∙◌, ◌⊎◌, Option, some, List, [], ◌∷◌, ◌++◌, ◌==◌, Text, arith, length,
  take, length-take, ap, Always, Always-ok, Run, ok,
}
use secure_chat.Connection.{ClientConnection, Ptr, Store, write}
use secure_chat.Database.{Calls}
use secure_chat.Protocol.Hash.{Evp, get_hash}
use secure_chat.Protocol.Wire.{Ssl}
use secure_chat.Auth.Dialog.{
  Db, Asked, Query, select_uid, select_login, insert_user, update_login, sql_of, SqlStep, row, done,
  Turn, again, cleanup, success, username_failure, memory_failure, Wire, Account, bound_hash,
  truncated, query, bound, stepped,
}

-- How often a password was compared.
abbrev pub comparisons : Query → ℕ
comparisons select_uid = 0
comparisons select_login = 1
comparisons insert_user = 0
comparisons update_login = 0

abbrev pub logins : List Asked → ℕ
logins [] = 0
logins ((q, params, r) ∷ qs) = comparisons q + logins qs

pub logins-append : (qs rs : List Asked) → logins (qs ++ rs) ≡ logins qs + logins rs
logins-append [] rs = omega arith
logins-append ((q, params, r) ∷ qs) rs = omega (arith, logins-append qs rs)

-- The statement is among those that were carried out.
abbrev pub IsIn : Asked → List Asked → Type 0
IsIn x [] = ⊥
IsIn x (y ∷ ys) = (x ≡ y) ⊎ IsIn x ys

IsIn-append : (x : Asked) (xs ys : List Asked) → IsIn x xs → IsIn x (xs ++ ys)
IsIn-append x [] ys h = absurd h
IsIn-append x (y ∷ xs) ys (inl e) = inl e
IsIn-append x (y ∷ xs) ys (inr h) = inr (IsIn-append x xs ys h)

IsIn-last : (x : Asked) (xs : List Asked) → IsIn x (xs ++ (x ∷ []))
IsIn-last x [] = inl refl
IsIn-last x (y ∷ xs) = inr (IsIn-last x xs)

-- Among these statements SQLite has found a row with the UID for the name and the hash of a password, or
-- it has inserted the name with its hash as the UID and the hash of a password.
abbrev pub Confirmed : List Asked → Evp → Text → Text → Text → Type 0
Confirmed asked evp name uid hash =
    IsIn (select_login, name ∷ bound_hash hash ∷ [], row uid) asked
    ⊎ ((get_hash evp name ≡ some uid)
        × IsIn (insert_user, name ∷ uid ∷ bound_hash hash ∷ [], done) asked)

-- The structure holds such a name and such a UID.
abbrev pub IsProven : List Asked → Evp → ClientConnection → Type 0
IsProven asked evp c =
    (uid : Text) × (password : Text) × (hash : Text) × (c.uid ≡ some uid)
    × (get_hash evp password ≡ some hash)
    × Confirmed asked evp c.username uid hash

abbrev pub Evidence : (db : Db) → Evp → Turn → Account db → Type 0
Evidence db evp again a = Unit {0}
Evidence db evp cleanup a = Unit {0}
Evidence db evp success a = IsProven a.queries evp (a.clients a.cl)
Evidence db evp username_failure a = Unit {0}
Evidence db evp memory_failure a = Unit {0}

abbrev pub closes_of : Turn → ℕ
closes_of again = 0
closes_of cleanup = 0
closes_of success = 1
closes_of username_failure = 0
closes_of memory_failure = 1

-- Both depend on nothing but the UID and the username.
pub IsProven-same :
    (asked : List Asked) (evp : Evp) (b c : ClientConnection)
    → c.uid ≡ b.uid
    → c.username ≡ b.username
    → IsProven asked evp b
    → IsProven asked evp c
IsProven-same asked evp b c u n (uid, password, hash, has, hashed, found) = (
  uid,
  password,
  hash,
  u ∙ has,
  hashed,
  subst (λ x. Confirmed asked evp x uid hash) (sym n) found,
)

-- From `a` on: no new handle, one close where the turn returns behind it, at most `k` comparisons.
pub record Outcome {db : Db} {ssl : Ssl} (evp : Evp) (k : ℕ) (a : Account db)
    (r : Wire ssl × Account db × Turn) : Type 0 where
  pub opened : r.1.calls.opens ≡ a.calls.opens
  pub closed : r.1.calls.closes ≡ a.calls.closes + closes_of r.2
  pub compared : logins r.1.queries ≤ logins a.queries + k
  pub proven : Evidence db evp r.2 r.1

-- The outcome from a later account on is the outcome from `a` on.
pub Outcome-move :
    {db : Db} {ssl : Ssl} (evp : Evp) (j k : ℕ) (a b : Account db)
    (r : Wire ssl × Account db × Turn)
    → b.calls.opens ≡ a.calls.opens
    → b.calls.closes ≡ a.calls.closes
    → logins b.queries + j ≤ logins a.queries + k
    → Outcome evp j b r
    → Outcome evp k a r
Outcome-move evp j k a b r o c l out = record {
  opened = out.opened ∙ o;
  closed = omega (arith, out.closed);
  compared = omega (arith, out.compared);
  proven = out.proven;
}

-- A query changes nothing of the structures, opens and closes nothing, and an answer is SQLite's.
pub record Queried (db : Db) (q : Query) (params : List Text) (a : Account db)
    (r : Option SqlStep × Account db) : Type 0 where
  pub calls : r.1.calls ≡ a.calls
  pub clients : r.1.clients ≡ a.clients
  pub cl : r.1.cl ≡ a.cl
  pub counted : logins r.1.queries ≤ logins a.queries + comparisons q
  pub kept : (x : Asked) → IsIn x a.queries → IsIn x r.1.queries
  pub answered : (x : SqlStep) → r.0 ≡ some x → IsIn (q, params, x) r.1.queries

-- What was confirmed before a query is confirmed behind it.
pub Confirmed-kept :
    (earlier later : List Asked) (evp : Evp) (name uid hash : Text)
    → ((x : Asked) → IsIn x earlier → IsIn x later)
    → Confirmed earlier evp name uid hash
    → Confirmed later evp name uid hash
Confirmed-kept earlier later evp name uid hash kept (inl found) = inl (kept _ found)
Confirmed-kept earlier later evp name uid hash kept (inr (named, made)) = inr (named, kept _ made)

unanswered :
    (db : Db) (q : Query) (params : List Text) (a b : Account db)
    → b.calls ≡ a.calls
    → b.clients ≡ a.clients
    → b.cl ≡ a.cl
    → b.queries ≡ a.queries
    → Queried db q params a (none, b)
unanswered db q params a b e f g h = record {
  calls = e;
  clients = f;
  cl = g;
  counted = rw h (omega arith);
  kept = λ x i. rw h i;
  answered = λ x n. cc;
}

pub query-Queried :
    (db : Db) (q : Query) (params : List Text) (a : Account db)
    → Queried db q params a (query db q params a)
unfolding query bound stepped
query-Queried db q params a = elim (Bool-cases (db.prepare a.handle (sql_of q))) [
  | inr refused ↦
      rw refused (unanswered db q params a (record a { statement = false }) refl refl refl refl)
  | inl prepared ↦ elim (Bool-cases (db.bind a.handle (sql_of q) params)) [
    | inr unbound ↦ rw prepared (
        rw unbound (
          unanswered db q params a (record a { prepared = a.prepared + 1; statement = true }) refl
            refl refl refl))
    | inl bound ↦ rw prepared (
        rw bound (record {
          calls = refl;
          clients = refl;
          cl = refl;
          counted = omega (arith, logins-append a.queries _);
          kept = λ x i. IsIn-append x a.queries _ i;
          answered = λ x e.
              let told = (db.step a.handle (sql_of q) params).0 in
              let same : told ≡ x = cc in
              subst (λ y. IsIn (q, params, y) (a.queries ++ ((q, params, told) ∷ []))) same
                (IsIn-last (q, params, told) a.queries);
        }))
  ]
]

-- A buffer of 17 bytes holds it.
pub length-truncated : (payload : Text) → length (truncated payload) ≤ 16
length-truncated payload = omega (arith, length-take 15 (take 15 payload))

-- The outcome of a turn that ends where it is.
pub Outcome-cleanup :
    {db : Db} {ssl : Ssl} (evp : Evp) (k : ℕ) (w : Wire ssl) (a : Account db)
    → Always (ok (w, a, cleanup)) (λ r. Outcome evp k a r)
Outcome-cleanup evp k w a =
    Always-ok _ _
      (record { opened = refl; closed = omega arith; compared = omega arith; proven = tt })

pub Outcome-again :
    {db : Db} {ssl : Ssl} (evp : Evp) (k : ℕ) (w : Wire ssl) (a : Account db)
    → Always (ok (w, a, again)) (λ r. Outcome evp k a r)
Outcome-again evp k w a =
    Always-ok _ _
      (record { opened = refl; closed = omega arith; compared = omega arith; proven = tt })

-- From `b` on, which `a` came to with the same handles, and with `j` of the `k` comparisons left.
pub Outcome-from :
    {db : Db} {ssl : Ssl} (evp : Evp) (j k : ℕ) (a b : Account db)
    (run : Run (Wire ssl × Account db × Turn))
    → b.calls ≡ a.calls
    → logins b.queries + j ≤ logins a.queries + k
    → Always run (λ r. Outcome evp j b r)
    → Always run (λ r. Outcome evp k a r)
Outcome-from evp j k a b run same few h v e =
    Outcome-move evp j k a b v (ap (λ (c : Calls). c.opens) same)
      (ap (λ (c : Calls). c.closes) same) few (h v e)
