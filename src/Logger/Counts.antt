-- ===== src/Logger/Counts.antt =====
-- The statistics of src/utils/logger.cpp over a series of messages.
pub mod Kept
use dann.Prelude.{
  ℕ, size_mod, ◌%◌, ◌+◌, ◌<◌, ◌≡◌, ◌⊎◌, refl, ap, ◌∙◌, true, false, Option, none, some, List, [],
  ◌∷◌, ◌++◌, length, update_at, length-update_at, get_or, ltb, leb, ◌==◌, if◌then◌else◌, arith,
  Bool-cases, if_both, inl, inr,
}
use dann.Dict.{Text, find, assign, erase, text_key, find-assign_self}
use dann.Types.{Outcome, returned, ◌>>=◌}
use dann.DistributedIvf.Build.Buckets.{get_or-update_at}
use dann.Logger.{
  LogLevel, trace_level, debug_level, info_level, warn_level, error_level, fatal_level,
  level_number, Process, Files, Logger,
}
use dann.Logger.Rotating.{
  backup_name, open_file, close_file, after_rename, after_shift, rotate_files,
}
use dann.Logger.Writing.{
  contents_of, write_line, write_to_stream, opened, write_to_file, write_to_console, update_stats,
  initialize, log, log_at,
}
use dann.Logger.Format.{format_message}
use dann.Logger.Rotation.{rotate_files-named, rename-found}
use dann.Logger.Counts.Kept.{IsAttached, log-returns}

-- The calls of all messages, in their order.
unfoldable pub log_all : Process → List (LogLevel × Text) → Logger → Outcome Logger
unfolding log_at
log_all process [] s = returned s
log_all process ((level, message) ∷ messages) s =
    log_at process level message s >>= λ t. log_all process messages t

-- The messages that are at least at a level, and those that are moreover at a given one.
abbrev pub passed : LogLevel → List (LogLevel × Text) → ℕ
passed level [] = 0
passed level ((l, message) ∷ messages) =
    (if leb (level_number level) (level_number l) then 1 else 0) + passed level messages

abbrev pub passed_at : LogLevel → LogLevel → List (LogLevel × Text) → ℕ
passed_at at level [] = 0
passed_at at level ((l, message) ∷ messages) =
    (if leb (level_number level) (level_number l)
      then (if level_number l == level_number at then 1 else 0)
      else 0)
    + passed_at at level messages

module _ (process : Process) where
  below_6 : (level : LogLevel) → level_number level < 6
  below_6 trace_level = omega arith
  below_6 debug_level = omega arith
  below_6 info_level = omega arith
  below_6 warn_level = omega arith
  below_6 error_level = omega arith
  below_6 fatal_level = omega arith

  counted_once :
      (a b n : ℕ) → b ≡ (a + 1) % size_mod → (b + n) % size_mod ≡ (a + (1 + n)) % size_mod
  counted_once a b n e = omega (arith, e)

  level_counted :
      (levels : List ℕ) (i j n : ℕ)
      → i < length levels
      → (get_or (update_at i (λ n. (n + 1) % size_mod) levels) j 0 + n) % size_mod
        ≡ (get_or levels j 0 + ((if i == j then 1 else 0) + n)) % size_mod
  level_counted levels i j n h =
      rw (get_or-update_at levels i j (λ n. (n + 1) % size_mod) 0 h) (elim (Bool-cases (i == j)) [
        | inl y ↦ rw y (counted_once (get_or levels j 0) _ n refl)
        | inr z ↦ rw z (omega arith)
      ])

  -- What is known before a message is known after it.
  pub record IsCounting (s : Logger) : Type 0 where
    pub attachment : IsAttached s
    pub six_levels : length s.stats.messages_by_level ≡ 6

  -- If the file system refuses no rotation for a reason of its own, the file that is open, when one is,
  -- is the output file, and there are six counts by level, then no message of a series throws, as the file
  -- that a rotation renames is there. Modulo 2^64 the total has grown by the number of messages at the logger's
  -- level or above it, and the count of each level by the number of those messages at that level.
  pub log_all-counts :
      (allowed : (path : Text) (files : Files) → process.refuses path files ≡ false)
      (messages : List (LogLevel × Text)) (s : Logger) (at : LogLevel)
      → IsCounting s
      → (t : Logger) × (log_all process messages s ≡ returned t)
        × (t.stats.total_messages % size_mod
            ≡ (s.stats.total_messages + passed s.level messages) % size_mod)
        × (get_or t.stats.messages_by_level (level_number at) 0 % size_mod
            ≡ (get_or s.stats.messages_by_level (level_number at) 0 + passed_at at s.level messages)
              % size_mod)
        × IsCounting t
  unfolding log_all log_at
  log_all-counts allowed [] s at h = (s, refl, omega arith, omega arith, h)
  log_all-counts allowed ((level, message) ∷ messages) s at h =
      elim (Bool-cases (leb (level_number s.level) (level_number level))) [
        | inl y ↦
            let (t, ran, total, levels, same, kept) =
              log-returns process allowed level message s h.attachment in
            let (u, rest, more, more_at, last) = log_all-counts allowed messages t at (record {
              attachment = kept;
              six_levels = rw levels (
                  length-update_at (level_number level) (λ n. (n + 1) % size_mod)
                    s.stats.messages_by_level
                  ∙ h.six_levels);
            }) in
            (
              u,
              rw (y, ran) rest,
              more
                  ∙ rw (y, same)
                      (counted_once s.stats.total_messages t.stats.total_messages
                        (passed s.level messages) total),
              more_at
                  ∙ rw (y, same, levels)
                      (level_counted s.stats.messages_by_level (level_number level)
                        (level_number at) (passed_at at s.level messages)
                        (rw h.six_levels (below_6 level))),
              last,
            )
        | inr z ↦
            let (u, rest, more, more_at, last) = log_all-counts allowed messages s at h in
            (u, rw z rest, more ∙ rw z (omega arith), more_at ∙ rw z (omega arith), last)
      ]
