-- ===== src/Logger.antt =====
-- src/utils/logger.cpp and include/dann/logger.h: the logger with its file, the console and the
-- rotation of files. The clock's fields, the thread's name and std::to_string are parameters. The files
-- are contents by path; streams write through, and a file is open under the name it was opened by.
pub mod Format
pub mod Rotating
pub mod Writing
pub mod Rotation
pub mod Counts
use dann.Prelude.{
  ℕ, zero, suc, ◌+◌, ◌-◌, ◌*◌, ◌%◌, max, Bool, true, false, not, ◌&&◌, Option, none, some, List, [],
  ◌∷◌, ◌++◌, length, replicate, update_at, ltb, leb, ◌==◌, if◌then◌else◌, ℤ, pos, negsuc, size_mod,
}
use dann.Dict.{Text, find, assign, erase, text_key, same_text}
use dann.Types.{Outcome, returned, thrown, ◌>>=◌}
use dann.Config.{text}

pub data LogLevel : Type 0 where
  trace_level debug_level info_level warn_level error_level fatal_level : LogLevel

abbrev pub level_number : LogLevel → ℕ
level_number trace_level = 0
level_number debug_level = 1
level_number info_level = 2
level_number warn_level = 3
level_number error_level = 4
level_number fatal_level = 5

-- The files with what is in them.
abbrev pub Files : Type 0
Files = List (Text × Text)

-- What the process reads: strftime's fields, the thread's name, std::to_string, whether the file of a
-- path can be opened, with its directory made, and whether a call of std::filesystem in a rotation of
-- the file of a path throws for a reason other than that the file is missing.
pub record Process : Type 0 where
  pub strftime : ℕ → Text
  pub thread_id : Text
  pub to_string : ℕ → Text
  pub opens : Text → Bool
  pub refuses : Text → Files → Bool

pub record LogStats : Type 0 where
  pub total_messages : ℕ
  pub messages_by_level : List ℕ
  pub bytes_written : ℕ
  pub file_rotations : ℕ

abbrev pub no_stats : LogStats
no_stats = record {
  total_messages = 0;
  messages_by_level = replicate 6 0;
  bytes_written = 0;
  file_rotations = 0;
}

-- The object, the files and what has been written to the two streams of the console.
pub record Logger : Type 0 where
  pub files : Files
  pub cout : List Text
  pub cerr : List Text
  pub level : LogLevel
  pub output_file : Text
  pub console_output : Bool
  pub max_file_size : ℕ
  pub max_files : ℕ
  pub pattern : Text
  pub file_stream : Option Text
  pub initialized : Bool
  pub stats : LogStats

unfoldable pub new_logger : Files → Logger
new_logger files = record {
  files = files;
  cout = [];
  cerr = [];
  level = info_level;
  output_file = [];
  console_output = true;
  max_file_size = 100 * 1024 * 1024;
  max_files = 5;
  pattern = text "[%Y-%m-%d %H:%M:%S] [%l] %v";
  file_stream = none;
  initialized = false;
  stats = no_stats;
}

unfoldable pub set_level : LogLevel → Logger → Logger
set_level level s = record s { level = level }

unfoldable pub set_console_output : Bool → Logger → Logger
set_console_output enabled s = record s { console_output = enabled }

unfoldable pub set_max_file_size : ℕ → Logger → Logger
set_max_file_size max_size_mb s = record s { max_file_size = max_size_mb * 1024 * 1024 % size_mod }

unfoldable pub set_max_files : ℤ → Logger → Logger
set_max_files (pos n) s = record s { max_files = max 1 n }
set_max_files (negsuc n) s = record s { max_files = 1 }

unfoldable pub set_pattern : Text → Logger → Logger
set_pattern pattern s = record s { pattern = pattern }

unfoldable pub reset_stats : Logger → Logger
reset_stats s = record s { stats = no_stats }
