-- ===== src/Tests/Log.antt =====
-- Examples of the theorems on the logs.
use secure_chat.Prelude.{◌≡◌, refl, Bool, true, none, some, ◌==◌, if◌then◌else◌, codes, []}
use secure_chat.Log.{finish_logging, not_found, locked}
use secure_chat.Log.Lines.{log_message-finished}
use secure_chat.Log.{
  locked, log_info, full_path_of, find_log, no_logs, wait_lock, log_line, written, timed_out,
  log_message, init_logging, Files,
}
use secure_chat.Log.Lines.{log_message-written}

abbrev no_files : Files
no_files h = []

nothing_found : find_log (full_path_of (codes "server.log")) no_logs ≡ none
unfolding find_log
nothing_found = refl

log_message-written_example :
    (b : Bool) × (wait_lock (λ n. locked) 5001 0 0 ≡ some b)
    × (log_message
          (λ n. locked)
          5001
          (codes "now")
          log_info
          (codes "server.log")
          (codes "server.c")
          (codes "started")
          (init_logging true true (λ p. some 3) (codes "server.log") no_logs)
          no_files
        ≡ (if b
            then (
              (λ f.
                  if f == 3
                  then log_line (codes "now") log_info (codes "server.c") (codes "started")
                  else []),
              written,
            )
            else (no_files, timed_out)))
log_message-written_example =
    log_message-written (λ n. locked) (λ p. some 3) (codes "now") log_info (codes "server.log")
      (codes "server.c") (codes "started") 3 no_logs no_files refl refl nothing_found

log_message-finished_example :
    log_message
      (λ n. locked)
      7
      (codes "now")
      log_info
      (codes "server.log")
      (codes "server.c")
      (codes "started")
      (finish_logging no_logs).1
      no_files
    ≡ (no_files, not_found)
log_message-finished_example =
    log_message-finished (λ n. locked) 7 (codes "now") log_info (codes "server.log")
      (codes "server.c") (codes "started") no_logs no_files
