-- ===== src/Tests/Database.antt =====
-- Examples of the theorems on the database.
use secure_chat.Prelude.{ℕ, ◌+◌, ◌≤◌, ◌≡◌, refl, true, Bool, ◌++◌, ◌==◌}
use secure_chat.Database.{
  no_calls, connect_db, connect_loop, setup_db, tables, database_connection_success,
}
use secure_chat.Database.Handles.{Balance, until_failure, connect_db-Balance, setup_db-closed}

abbrev third_opens : ℕ → Bool
third_opens n = n == 2

connect_db-Balance_example :
    Balance (connect_db third_opens no_calls) × ((connect_db third_opens no_calls).0.opens ≤ 10)
connect_db-Balance_example = connect_db-Balance third_opens

third_connects : (connect_db third_opens no_calls).1 ≡ database_connection_success
unfolding connect_db connect_loop
third_connects = refl

setup_db-closed_example :
    (setup_db third_opens (λ sql. true) no_calls ≡ (
      record (connect_db third_opens no_calls).0 {
        closes = (connect_db third_opens no_calls).0.closes + 1;
        executed =
            (connect_db third_opens no_calls).0.executed ++ (until_failure (λ sql. true) tables).0;
      },
      (until_failure (λ sql. true) tables).1,
    ))
    × ((connect_db third_opens no_calls).0.closes + 1 ≡ (connect_db third_opens no_calls).0.opens)
setup_db-closed_example = setup_db-closed third_opens (λ sql. true) third_connects
