-- ===== src/Database/Handles.antt =====
-- Handles and tables of server/src/server_db.c.
use secure_chat.Prelude.{
  ℕ, zero, suc, ◌+◌, ◌≤◌, ◌≡◌, refl, sym, ◌⊎◌, inl, inr, Bool, Bool-cases, List, [], ◌∷◌, ◌++◌,
  if◌then◌else◌, Text, arith,
}
use mathlib.Core.List.{append_assoc, append-nil}
use secure_chat.Database.{
  Calls, no_calls, connect_loop, connect_db, create_tables, setup_db, tables, opened, closed,
  database_connection_success, database_open_failure, database_create_success,
}

-- What the result of a connection tells of the handles.
abbrev pub Balance : Calls × ℕ → Type 0
Balance r =
    ((r.1 ≡ database_connection_success) × (r.0.opens ≡ r.0.closes + 1))
    ⊎ ((r.1 ≡ database_open_failure) × (r.0.closes ≡ r.0.opens + 1))

connect_loop-Balance :
    (open_ok : ℕ → Bool) (left n : ℕ) (c : Calls)
    → c.opens ≡ c.closes
    → Balance (connect_loop open_ok left n c)
      × ((connect_loop open_ok left n c).0.opens ≤ c.opens + left)
unfolding connect_loop
connect_loop-Balance open_ok zero n c e = (inr (refl, omega arith), omega arith)
connect_loop-Balance open_ok (suc left) n c e = elim (Bool-cases (open_ok n)) [
  | inl good ↦ rw good (inl (refl, omega arith), omega arith)
  | inr bad ↦
      let (balance, few) =
        connect_loop-Balance open_ok left (suc n) (closed (opened c)) (omega arith) in
      rw bad (balance, omega arith)
]

-- Whatever SQLite answers, `connect_db` ends after at most ten opens. Where it succeeds exactly one
-- handle is open; where it fails it has made one close
-- more than opens.
pub connect_db-Balance :
    (open_ok : ℕ → Bool)
    → Balance (connect_db open_ok no_calls) × ((connect_db open_ok no_calls).0.opens ≤ 10)
unfolding connect_db
connect_db-Balance open_ok = connect_loop-Balance open_ok 10 0 no_calls refl

-- The statements in front of the first that fails, and the result for it.
unfoldable pub until_failure : (Text → Bool) → List (Text × ℕ) → List Text × ℕ
until_failure exec_ok [] = ([], database_create_success)
until_failure exec_ok ((sql, failure) ∷ ts) =
    let rest = until_failure exec_ok ts in
    if exec_ok sql then (sql ∷ rest.0, rest.1) else ([], failure)

create_tables-until_failure :
    (exec_ok : Text → Bool) (ts : List (Text × ℕ)) (c : Calls)
    → create_tables exec_ok ts c ≡ (
      record c { closes = c.closes + 1; executed = c.executed ++ (until_failure exec_ok ts).0 },
      (until_failure exec_ok ts).1,
    )
unfolding create_tables until_failure
create_tables-until_failure exec_ok [] c = rw (append-nil c.executed) refl
create_tables-until_failure exec_ok ((sql, failure) ∷ ts) c = elim (Bool-cases (exec_ok sql)) [
  | inl good ↦
      let rest =
        create_tables-until_failure exec_ok ts (record c { executed = c.executed ++ (sql ∷ []) }) in
      let joined = append_assoc c.executed (sql ∷ []) (until_failure exec_ok ts).0 in
      rw good (rw rest (rw joined refl))
  | inr bad ↦ rw bad (rw (append-nil c.executed) refl)
]

-- Where a handle can be opened within ten attempts, `setup_db` carries out the statements up to the
-- first that fails, returns the result for it or the success, and leaves no handle open.
pub setup_db-closed :
    (open_ok : ℕ → Bool) (exec_ok : Text → Bool)
    → (connect_db open_ok no_calls).1 ≡ database_connection_success
    → (setup_db open_ok exec_ok no_calls ≡ (
      record (connect_db open_ok no_calls).0 {
        closes = (connect_db open_ok no_calls).0.closes + 1;
        executed = (connect_db open_ok no_calls).0.executed ++ (until_failure exec_ok tables).0;
      },
      (until_failure exec_ok tables).1,
    ))
      × ((connect_db open_ok no_calls).0.closes + 1 ≡ (connect_db open_ok no_calls).0.opens)
unfolding setup_db
setup_db-closed open_ok exec_ok e =
    let (balance, few) = connect_db-Balance open_ok in
    (
      rw (e, setup_db) (create_tables-until_failure exec_ok tables (connect_db open_ok no_calls).0),
      elim balance [ inl (good, b) ↦ sym b | inr (bad, b) ↦ absurd (omega arith) ],
    )
