-- ===== src/Examples/Logged.antt =====
-- A logger with a file and one with the console only.
use dann.Prelude.{false, ◌++◌, ◌%◌, ◌≡◌, refl, inl, true, some, List, [], ◌∷◌, get_or, size_mod}
use dann.Dict.{Text, text_key}
use dann.Types.{returned}
use dann.Config.{text}
use dann.Logger.{Process, Logger, LogLevel, info_level, debug_level, error_level, new_logger}
use dann.Logger.Counts.{log_all, IsCounting, log_all-counts}

abbrev process : Process
process = record {
  strftime = λ field. text "00";
  thread_id = text "1";
  to_string = λ n. n ∷ [];
  opens = λ path. true;
  refuses = λ path files. false;
}

abbrev full : Logger
full = record (new_logger []) {
  files = (text "a", text "new") ∷ (text "a" ++ 46 ∷ 2 ∷ [], text "old") ∷ [];
  output_file = text "a";
  max_files = 5;
  file_stream = some (text "a");
  initialized = true;
}

abbrev three_messages : List (LogLevel × Text)
three_messages =
    (info_level, text "hello") ∷ (debug_level, text "quiet") ∷ (error_level, text "oh") ∷ []

abbrev ready : Logger
ready = new_logger []

ready-IsCounting : IsCounting process ready
unfolding new_logger
ready-IsCounting = record { attachment = record { attached = inl refl }; six_levels = refl }

log_all-counts_example :
    (t : Logger) × (log_all process three_messages ready ≡ returned t)
    × (t.stats.total_messages % size_mod ≡ 2)
    × (get_or t.stats.messages_by_level 4 0 % size_mod ≡ 1)
    × IsCounting process t
unfolding new_logger
log_all-counts_example =
    log_all-counts process (λ path files. refl) three_messages ready error_level ready-IsCounting
