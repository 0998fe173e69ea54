-- ===== src/Log.antt =====
-- common/src/log.c: the table of the open log files, and one line of a log. Each function holds
-- `log_mutex` from its first access of the table on, so it is one step.
pub mod Lines
pub mod Format
use secure_chat.Prelude.{
  ℕ, zero, suc, ◌+◌, Bool, true, false, Option, none, some, List, [], ◌∷◌, ◌++◌, ◌==◌, ltb,
  if◌then◌else◌, Text, codes, text_eq, replicate, snprintf,
}

-- LOGS_DIR, LOCKED_FILE_RETRY_TIME and LOCKED_FILE_TIMEOUT
abbrev pub logs_dir : Text
logs_dir = codes "logs"

abbrev pub locked_file_retry_time : ℕ
locked_file_retry_time = 1000

abbrev pub locked_file_timeout : ℕ
locked_file_timeout = 5000000

-- `logger_t`; a file is named by its handle.
pub record Logger : Type 0 where
  pub filename : Text
  pub file : ℕ

-- `loggers.array`
abbrev pub Slots : Type 0
Slots = List (Option Logger)

-- MAX_LOG_FILES slots, all free when the program starts.
abbrev pub no_logs : Slots
no_logs = replicate 10 none

abbrev pub full_path_of : Text → Text
full_path_of filename = snprintf 256 (logs_dir ++ (b'/' ∷ filename))

-- The first free slot takes what could be opened.
unfoldable pub fill_slot : Option Logger → Slots → Slots
fill_slot l [] = []
fill_slot l (none ∷ s) = l ∷ s
fill_slot l (some x ∷ s) = some x ∷ fill_slot l s

-- The logger of a path: its name is allocated, and `fopen` opens it.
unfoldable pub open_log : Bool → (Text → Option ℕ) → Text → Option Logger
open_log malloc_ok fopen path =
    if malloc_ok
    then elim (fopen path) [ none ↦ none | some h ↦ some (record { filename = path; file = h }) ]
    else none

-- `directory` tells that the directory is there or could be made.
unfoldable pub init_logging : Bool → Bool → (Text → Option ℕ) → Text → Slots → Slots
init_logging directory malloc_ok fopen filename s =
    if directory then fill_slot (open_log malloc_ok fopen (full_path_of filename)) s else s

unfoldable pub find_log : Text → Slots → Option ℕ
find_log path [] = none
find_log path (none ∷ s) = find_log path s
find_log path (some l ∷ s) =
    let rest = find_log path s in if text_eq l.filename path then some l.file else rest

-- What `flock` with LOCK_NB tells.
pub data Flock : Type 0 where
  locked would_block failed : Flock

-- The loop behind the first `flock`: `flock n` is the result of its n-th call, `timeout` the time
-- waited. `some true` goes on to write, `some false` gives up, `none` is out of fuel.
unfoldable pub wait_lock : (ℕ → Flock) → ℕ → ℕ → ℕ → Option Bool
wait_lock flock zero n timeout = none
wait_lock flock (suc fuel) n timeout =
    let timeout' = timeout + locked_file_retry_time in
    let rest = wait_lock flock fuel (suc n) timeout' in
    elim (flock n) [
      | locked ↦ some true
      | failed ↦ some true
      | would_block ↦ if ltb locked_file_timeout timeout' then some false else rest
    ]

pub data LogLevel : Type 0 where
  log_debug log_info log_warn log_error log_fatal : LogLevel

unfoldable pub level_str : LogLevel → Text
level_str log_debug = codes "DEBUG"
level_str log_info = codes "INFO"
level_str log_warn = codes "WARN"
level_str log_error = codes "ERROR"
level_str log_fatal = codes "FATAL"

-- The contents of the open files
abbrev pub Files : Type 0
Files = ℕ → Text

-- The line for a message that is formatted already; its buffer has 1024 bytes.
unfoldable pub log_line : Text → LogLevel → Text → Text → Text
log_line timestamp level source_file message =
    timestamp
    ++ (codes " - "
        ++ (level_str level
            ++ (codes " - "
                ++ (source_file ++ (codes " - " ++ (snprintf 1024 message ++ codes "\n"))))))

-- How `log_message` ends: with its line written, with no such file, or after the timeout.
pub data Logged : Type 0 where
  written not_found timed_out out_of_fuel : Logged

unfoldable pub write_line : Option Bool → ℕ → Text → Files → Files × Logged
write_line none h line fs = (fs, out_of_fuel)
write_line (some false) h line fs = (fs, timed_out)
write_line (some true) h line fs = ((λ f. if f == h then fs f ++ line else fs f), written)

unfoldable pub log_message :
    (ℕ → Flock) → ℕ → Text → LogLevel → Text → Text → Text → Slots → Files → Files × Logged
log_message flock fuel timestamp level filename source_file message s fs =
    elim (find_log (full_path_of filename) s) [
      | none ↦ (fs, not_found)
      | some h ↦
          write_line (wait_lock flock fuel 0 0) h (log_line timestamp level source_file message) fs
    ]

-- `finish_logging` closes and frees every slot: the handles that are closed, and the slots.
unfoldable pub finish_logging : Slots → List ℕ × Slots
finish_logging [] = ([], [])
finish_logging (none ∷ s) = let rest = finish_logging s in (rest.0, none ∷ rest.1)
finish_logging (some l ∷ s) = let rest = finish_logging s in (l.file ∷ rest.0, none ∷ rest.1)
