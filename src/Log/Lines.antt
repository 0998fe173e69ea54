-- ===== src/Log/Lines.antt =====
-- `init_logging`, `log_message` and `finish_logging` of common/src/log.c together.
use secure_chat.Prelude.{
  ℕ, zero, suc, ◌+◌, ◌*◌, ◌<◌, ◌≡◌, refl, Bool, true, false, Bool-cases, inl, inr, ◌⊎◌, Option,
  none, some, [], ◌∷◌, ◌++◌, ◌==◌, ltb, if◌then◌else◌, Text, text_eq_refl, arith,
}
use secure_chat.Log.{
  Slots, full_path_of, fill_slot, open_log, init_logging, find_log, Flock, locked, would_block,
  failed, wait_lock, LogLevel, Files, log_line, written, timed_out, not_found, write_line,
  log_message, finish_logging,
}

abbrev pub has_free : Slots → Bool
has_free [] = false
has_free (none ∷ s) = true
has_free (some l ∷ s) = has_free s

find_log-fill_slot :
    (path : Text) (h : ℕ) (s : Slots)
    → has_free s ≡ true
    → find_log path s ≡ none
    → find_log path (fill_slot (some (record { filename = path; file = h })) s) ≡ some h
unfolding find_log fill_slot
find_log-fill_slot path h [] free absent = absurd (ground arith)
find_log-fill_slot path h (none ∷ s) free absent = rw (text_eq_refl path) refl
find_log-fill_slot path h (some l ∷ s) free absent =
    ground (arith, find_log-fill_slot path h s free)

Flock-cases : (f : Flock) → (f ≡ locked) ⊎ ((f ≡ failed) ⊎ (f ≡ would_block))
Flock-cases locked = inl refl
Flock-cases failed = inr (inl refl)
Flock-cases would_block = inr (inr refl)

write_line-cases :
    (b : Bool) (h : ℕ) (line : Text) (fs : Files)
    → write_line (some b) h line fs
      ≡ (if b then ((λ f. if f == h then fs f ++ line else fs f), written) else (fs, timed_out))
unfolding write_line
write_line-cases true h line fs = refl
write_line-cases false h line fs = refl

-- 5001 rounds are more than the timeout of five seconds lets the loop make.
wait_lock-ends :
    (flock : ℕ → Flock) (fuel n timeout : ℕ)
    → 5000000 < timeout + fuel * 1000
    → timeout < 5000001
    → (b : Bool) × (wait_lock flock fuel n timeout ≡ some b)
unfolding wait_lock
wait_lock-ends flock zero n timeout h t = absurd (omega arith)
wait_lock-ends flock (suc fuel) n timeout h t = elim (Flock-cases (flock n)) [
  | inl e ↦ (true, rw (e, wait_lock) refl)
  | inr (inl e) ↦ (true, rw (e, wait_lock) refl)
  | inr (inr e) ↦ elim (Bool-cases (ltb 5000000 (timeout + 1000))) [
    | inl over ↦ (false, rw (e, wait_lock) (rw over refl))
    | inr under ↦
        let (b, rest) =
          wait_lock-ends flock fuel (suc n) (timeout + 1000) (omega arith) (ground arith) in
        (b, rw (e, wait_lock) (rw under rest))
  ]
]

-- Behind `init_logging` of a file that `fopen` gives the handle `h`, where a slot was free and no log
-- had this name, `log_message` ends within 5001 rounds: it appends its line to that file, or it gives
-- up after the timeout and writes nothing; no other file changes.
pub log_message-written :
    (flock : ℕ → Flock) (fopen : Text → Option ℕ) (timestamp : Text) (level : LogLevel)
    (filename source_file message : Text) (h : ℕ) (s : Slots) (fs : Files)
    → fopen (full_path_of filename) ≡ some h
    → has_free s ≡ true
    → find_log (full_path_of filename) s ≡ none
    → (b : Bool) × (wait_lock flock 5001 0 0 ≡ some b)
      × (log_message flock 5001 timestamp level filename source_file message
            (init_logging true true fopen filename s)
            fs
          ≡ (if b
              then (
                (λ f.
                    if f == h then fs f ++ log_line timestamp level source_file message else fs f),
                written,
              )
              else (fs, timed_out)))
unfolding log_message init_logging open_log
log_message-written flock fopen timestamp level filename source_file message h s fs opened free
      absent =
    let (b, ends) = wait_lock-ends flock 5001 0 0 (omega arith) (omega arith) in
    let found = find_log-fill_slot (full_path_of filename) h s free absent in
    (
      b,
      ends,
      rw (opened, open_log)
          (rw (found, log_message)
            (rw ends (write_line-cases b h (log_line timestamp level source_file message) fs))),
    )

find_log-finish_logging : (path : Text) (s : Slots) → find_log path (finish_logging s).1 ≡ none
unfolding find_log finish_logging
find_log-finish_logging path [] = refl
find_log-finish_logging path (none ∷ s) = find_log-finish_logging path s
find_log-finish_logging path (some l ∷ s) = find_log-finish_logging path s

-- After `finish_logging` no name finds a log, and a message for any name is written nowhere.
pub log_message-finished :
    (flock : ℕ → Flock) (fuel : ℕ) (timestamp : Text) (level : LogLevel)
    (filename source_file message : Text) (s : Slots) (fs : Files)
    → log_message flock fuel timestamp level filename source_file message (finish_logging s).1 fs
      ≡ (fs, not_found)
unfolding log_message
log_message-finished flock fuel timestamp level filename source_file message s fs =
    rw (find_log-finish_logging (full_path_of filename) s, log_message) refl
