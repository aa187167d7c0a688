-- ===== src/Logger/Rotating.antt =====
-- src/utils/logger.cpp: the file of the log and its rotation.
use dann.Prelude.{
  ℕ, zero, suc, ◌+◌, ◌-◌, ◌%◌, false, Option, none, some, [], ◌∷◌, ◌++◌, length, ◌==◌,
  if◌then◌else◌, size_mod,
}
use dann.Dict.{Text, find, assign, erase, text_key}
use dann.Types.{Outcome, returned, thrown}
use dann.Logger.{Process, Files, Logger}

module _ (process : Process) where
  -- Opening to append makes a file that is missing.
  unfoldable pub touched : Text → Files → Files
  touched path files = elim (find path files) [ none ↦ assign path [] files | some c ↦ files ]

  unfoldable pub open_file : Logger → Logger
  unfolding touched
  open_file s =
      if length s.output_file == 0
      then s
      else if process.opens s.output_file
      then record s { files = touched s.output_file s.files; file_stream = some s.output_file }
      else record s { file_stream = none }

  unfoldable pub close_file : Logger → Logger
  close_file s = record s { file_stream = none }

  abbrev pub backup_name : Text → ℕ → Text
  backup_name output_file i = output_file ++ 46 ∷ process.to_string i

  unfoldable pub rename : Text → Text → Files → Option Files
  rename source target files = elim (find source files) [
    | none ↦ none
    | some c ↦ some (assign target c (erase source files))
  ]

  -- One round of the loop, for number i.
  unfoldable pub move_backup : Text → ℕ → ℕ → Files → Files
  move_backup output_file max_files i files = elim (find (backup_name output_file i) files) [
    | none ↦ files
    | some c ↦
        if i == max_files - 1
        then erase (backup_name output_file i) files
        else assign (backup_name output_file (suc i)) c (erase (backup_name output_file i) files)
  ]

  -- The loop from i down to 1.
  unfoldable pub shift_from : Text → ℕ → ℕ → Files → Files
  unfolding move_backup
  shift_from output_file max_files zero files = files
  shift_from output_file max_files (suc i) files =
      shift_from output_file max_files i (move_backup output_file max_files (suc i) files)

  abbrev pub after_shift : Logger → Files → Logger
  after_shift s files = open_file (record s {
    files = shift_from s.output_file s.max_files (s.max_files - 1) files;
    stats = record s.stats { file_rotations = (s.stats.file_rotations + 1) % size_mod };
  })

  abbrev pub after_rename : Logger → Option Files → Outcome Logger
  after_rename s none = thrown
  after_rename s (some files) = returned (after_shift s files)

  -- The current file becomes number 1 before the others are moved. An exception has no state, so that it
  -- does not matter which of the calls of std::filesystem throws it.
  unfoldable pub rotate_files : Logger → Outcome Logger
  unfolding close_file rename shift_from open_file
  rotate_files s =
      if length s.output_file == 0
      then returned s
      else if process.refuses s.output_file s.files
      then thrown
      else after_rename (close_file s) (rename s.output_file (backup_name s.output_file 1) s.files)

  unfoldable pub set_output_file : Text → Logger → Logger
  unfolding close_file open_file
  set_output_file filename s =
      let t = record s { output_file = filename } in
      if s.initialized then open_file (close_file t) else t

  unfoldable pub close : Logger → Logger
  unfolding close_file
  close s = record (close_file s) { initialized = false }

  unfoldable pub get_rotation_filename : ℕ → Text → Text
  get_rotation_filename index output_file =
      if index == 0 then output_file else backup_name output_file index

  -- The rounds that are left, from number i on; a number that is missing ends the loop.
  unfoldable pub cleanup_from : ℕ → ℕ → Text → Files → Files
  unfolding get_rotation_filename
  cleanup_from zero i output_file files = files
  cleanup_from (suc rounds) i output_file files =
      let filename = get_rotation_filename i output_file in
      let rest = cleanup_from rounds (suc i) output_file (erase filename files) in
      elim (find filename files) [ none ↦ files | some c ↦ rest ]

  unfoldable pub cleanup_old_files : Logger → Logger
  unfolding cleanup_from
  cleanup_old_files s = record s { files = cleanup_from 11 s.max_files s.output_file s.files }
