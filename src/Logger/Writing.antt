-- ===== src/Logger/Writing.antt =====
-- src/utils/logger.cpp: a message on its way to the file, the console and the statistics.
use dann.Prelude.{
  ℕ, ◌+◌, ◌%◌, true, Option, none, some, [], ◌∷◌, ◌++◌, length, update_at, ltb, leb, ◌==◌,
  if◌then◌else◌, size_mod,
}
use dann.Dict.{Text, find, assign, text_key}
use dann.Types.{Outcome, returned, ◌>>=◌}
use dann.Logger.{LogLevel, level_number, Process, Logger}
use dann.Logger.Format.{format_message}
use dann.Logger.Rotating.{open_file, rotate_files}

module _ (process : Process) where
  abbrev pub contents_of : Option Text → Text
  contents_of none = []
  contents_of (some c) = c

  -- A line is appended to the open file; what `tellp` gives after it is the length of the file.
  unfoldable pub write_line : Text → Text → Logger → Outcome Logger
  unfolding rotate_files
  write_line path message s =
      let c = contents_of (find path s.files) ++ message ++ 10 ∷ [] in
      let t = record s { files = assign path c s.files } in
      if ltb t.max_file_size (length c) then rotate_files process t else returned t

  abbrev pub write_to_stream : Text → Logger → Option Text → Outcome Logger
  write_to_stream message s none = returned s
  write_to_stream message s (some path) = write_line path message s

  abbrev pub opened : Logger → Option Text → Logger
  opened s none = open_file process s
  opened s (some path) = s

  unfoldable pub write_to_file : Text → Logger → Outcome Logger
  unfolding open_file write_line
  write_to_file message s =
      let t = opened s s.file_stream in
      if length s.output_file == 0 then returned s else write_to_stream message t t.file_stream

  unfoldable pub write_to_console : LogLevel → Text → Logger → Logger
  write_to_console level message s =
      if s.console_output
      then (if leb (level_number level) 2
          then record s { cout = s.cout ++ message ∷ [] }
          else record s { cerr = s.cerr ++ message ∷ [] })
      else s

  unfoldable pub update_stats : LogLevel → ℕ → Logger → Logger
  update_stats level message_size s = record s {
    stats = record s.stats {
      total_messages = (s.stats.total_messages + 1) % size_mod;
      messages_by_level =
          update_at (level_number level) (λ n. (n + 1) % size_mod) s.stats.messages_by_level;
      bytes_written = (s.stats.bytes_written + message_size) % size_mod;
    };
  }

  abbrev pub initialize : Logger → Logger
  initialize s = if s.initialized then s else record (open_file process s) { initialized = true }

  -- An exception of the rotation leaves the console and the statistics as they are.
  unfoldable pub log : LogLevel → Text → Logger → Outcome Logger
  unfolding open_file format_message write_to_file write_to_console update_stats
  log level message s =
      let t = initialize s in
      let formatted = format_message process level message t.pattern in
      write_to_file formatted t >>= λ u.
      returned (update_stats level (length formatted) (write_to_console level formatted u))

  -- trace, debug, info, warn, error and fatal, which differ in the level only.
  unfoldable pub log_at : LogLevel → Text → Logger → Outcome Logger
  unfolding log
  log_at level message s =
      if leb (level_number s.level) (level_number level) then log level message s else returned s

  unfoldable pub rotate_file_if_needed : Logger → Outcome Logger
  unfolding rotate_files
  rotate_file_if_needed s = elim s.file_stream [
    | none ↦ returned s
    | some path ↦
        if ltb s.max_file_size (length (contents_of (find path s.files)))
        then rotate_files process s
        else returned s
  ]
