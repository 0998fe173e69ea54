-- ===== src/Database.antt =====
-- server/src/server_db.c: opening the database with its retries, and the creation of its tables.
-- SQLite is left to the arguments: what the n-th `sqlite3_open` and what each `sqlite3_exec` return.
pub mod Handles
use secure_chat.Prelude.{
  ℕ, zero, suc, ◌+◌, Bool, List, [], ◌∷◌, ◌++◌, ◌==◌, if◌then◌else◌, Text, codes,
}

-- The calls of `sqlite3_open` and of `sqlite3_close`, and the statements that were carried out. A
-- failed `sqlite3_open` allocates a handle, too, which must be closed once.
pub record Calls : Type 0 where
  pub opens : ℕ
  pub closes : ℕ
  pub executed : List Text

abbrev pub no_calls : Calls
no_calls = record { opens = 0; closes = 0; executed = [] }

abbrev pub database_connection_attempts : ℕ
database_connection_attempts = 10

abbrev pub database_connection_success : ℕ
database_connection_success = 1200

abbrev pub database_open_failure : ℕ
database_open_failure = 1201

abbrev pub database_create_success : ℕ
database_create_success = 1300

abbrev pub opened : Calls → Calls
opened c = record c { opens = c.opens + 1 }

abbrev pub closed : Calls → Calls
closed c = record c { closes = c.closes + 1 }

-- The loop, with the attempts that are left.
unfoldable pub connect_loop : (ℕ → Bool) → ℕ → ℕ → Calls → Calls × ℕ
connect_loop open_ok zero n c = (closed c, database_open_failure)
connect_loop open_ok (suc left) n c =
    let rest = connect_loop open_ok left (suc n) (closed (opened c)) in
    if open_ok n then (opened c, database_connection_success) else rest

unfoldable pub connect_db : (ℕ → Bool) → Calls → Calls × ℕ
connect_db open_ok c = connect_loop open_ok database_connection_attempts 0 c

abbrev pub users_sql : Text
users_sql =
    codes "CREATE TABLE IF NOT EXISTS users ("
    ++ (codes "user_id INTEGER PRIMARY KEY AUTOINCREMENT, "
        ++ (codes "username TEXT NOT NULL UNIQUE, "
            ++ (codes "uid TEXT NOT NULL UNIQUE, "
                ++ (codes "password_hash TEXT NOT NULL, "
                    ++ (codes "created_at TEXT DEFAULT CURRENT_TIMESTAMP, "
                        ++ (codes "last_login TEXT, "
                            ++ (codes "is_banned BOOLEAN DEFAULT FALSE, "
                                ++ (codes "is_muted BOOLEAN DEFAULT FALSE, "
                                    ++ (codes "is_admin BOOLEAN DEFAULT FALSE"
                                        ++ (codes ");"))))))))))

abbrev pub groups_sql : Text
groups_sql =
    codes "CREATE TABLE IF NOT EXISTS groups ("
    ++ (codes "group_id INTEGER PRIMARY KEY AUTOINCREMENT, "
        ++ (codes "group_name TEXT NOT NULL UNIQUE, "
            ++ (codes "created_by INTEGER NOT NULL, "
                ++ (codes "created_at TEXT DEFAULT CURRENT_TIMESTAMP, "
                    ++ (codes "FOREIGN KEY (created_by) REFERENCES users(user_id) ON DELETE CASCADE"
                        ++ (codes ");"))))))

abbrev pub group_membership_sql : Text
group_membership_sql =
    codes "CREATE TABLE IF NOT EXISTS group_membership ("
    ++ (codes "membership_id INTEGER PRIMARY KEY AUTOINCREMENT, "
        ++ (codes "group_id INTEGER NOT NULL, "
            ++ (codes "user_id INTEGER NOT NULL, "
                ++ (codes "joined_at TEXT DEFAULT CURRENT_TIMESTAMP, "
                    ++ (codes
                          "FOREIGN KEY (group_id) REFERENCES groups(group_id) ON DELETE CASCADE, "
                        ++ (codes
                              "FOREIGN KEY (user_id) REFERENCES users(user_id) ON DELETE CASCADE, "
                            ++ (codes "UNIQUE (group_id, user_id)" ++ (codes ");"))))))))

abbrev pub messages_sql : Text
messages_sql =
    codes "CREATE TABLE IF NOT EXISTS messages ("
    ++ (codes "message_id INTEGER PRIMARY KEY AUTOINCREMENT, "
        ++ (codes "sender_id INTEGER NOT NULL, "
            ++ (codes "content TEXT NOT NULL, "
                ++ (codes "created_at TEXT DEFAULT CURRENT_TIMESTAMP, "
                    ++ (codes "is_group_message BOOLEAN DEFAULT FALSE, "
                        ++ (codes
                              "FOREIGN KEY (sender_id) REFERENCES users(user_id) ON DELETE CASCADE"
                            ++ (codes ");")))))))

abbrev pub message_recipients_sql : Text
message_recipients_sql =
    codes "CREATE TABLE IF NOT EXISTS message_recipients ("
    ++ (codes "recipient_id INTEGER PRIMARY KEY AUTOINCREMENT, "
        ++ (codes "message_id INTEGER NOT NULL, "
            ++ (codes "recipient_user_id INTEGER, "
                ++ (codes "recipient_group_id INTEGER, "
                    ++ (codes
                          "FOREIGN KEY (message_id) REFERENCES messages(message_id) ON DELETE CASCADE, "
                        ++ (codes
                              "FOREIGN KEY (recipient_user_id) REFERENCES users(user_id) ON DELETE CASCADE, "
                            ++ (codes
                                  "FOREIGN KEY (recipient_group_id) REFERENCES groups(group_id) ON DELETE CASCADE, "
                                ++ (codes
                                      "CHECK (recipient_user_id IS NOT NULL OR recipient_group_id IS NOT NULL), "
                                    ++ (codes
                                          "CHECK (recipient_user_id IS NULL OR recipient_group_id IS NULL)"
                                        ++ (codes ");"))))))))))

-- The statements in their order, each with the result for its failure.
abbrev pub tables : List (Text × ℕ)
tables =
    (users_sql, 1301)
    ∷ (groups_sql, 1302)
    ∷ (group_membership_sql, 1303)
    ∷ (messages_sql, 1304)
    ∷ (message_recipients_sql, 1305)
    ∷ []

unfoldable pub create_tables : (Text → Bool) → List (Text × ℕ) → Calls → Calls × ℕ
create_tables exec_ok [] c = (closed c, database_create_success)
create_tables exec_ok ((sql, failure) ∷ ts) c =
    let rest = create_tables exec_ok ts (record c { executed = c.executed ++ (sql ∷ []) }) in
    if exec_ok sql then rest else (closed c, failure)

unfoldable pub setup_db : (ℕ → Bool) → (Text → Bool) → Calls → Calls × ℕ
setup_db open_ok exec_ok c =
    let (c', code) = connect_db open_ok c in
    if code == database_connection_success
    then create_tables exec_ok tables c'
    else (c', database_open_failure)
