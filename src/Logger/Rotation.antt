-- ===== src/Logger/Rotation.antt =====
-- Which files the rotation of src/utils/logger.cpp keeps.
pub mod Shift
use dann.Prelude.{
  zero, suc, ◌-◌, ◌≡◌, ◌≢◌, refl, sym, true, false, Option, none, some, Option-cases, [], ◌∷◌, ◌++◌,
  length, ltb, leb, ◌||◌, ◌==◌, ==_iff, if◌then◌else◌, Bool-cases, inl, inr,
}
use dann.Dict.{
  Text, find, assign, erase, text_key, find-assign, find-erase, same_text, same_text→eq,
  same_text_refl,
}
use dann.Logger.{Process, Files, Logger}
use dann.Logger.Rotating.{
  backup_name, move_backup, shift_from, rename, touched, close_file, after_rename, rotate_files,
}
use dann.Logger.Rotation.Shift.{not_backup, same_name}

pub rename-found :
    (process : Process) (source target c : Text) (files : Files)
    → find source files ≡ some c
    → rename process source target files ≡ some (assign target c (erase source files))
unfolding rename
rename-found process source target c files e = rw (e, rename)

pub rotate_files-named :
    (process : Process) (s : Logger)
    → (length s.output_file == 0) ≡ false
    → process.refuses s.output_file s.files ≡ false
    → rotate_files process s
      ≡ after_rename process
          (close_file process s)
          (rename process s.output_file (backup_name process s.output_file 1) s.files)
unfolding rotate_files
rotate_files-named process s e allowed = rw (e, allowed) refl
