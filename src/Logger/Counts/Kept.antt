-- ===== src/Logger/Counts/Kept.antt =====
-- One message of src/utils/logger.cpp and the statistics.
use dann.Prelude.{
  size_mod, ◌%◌, ◌+◌, ◌≡◌, ◌⊎◌, refl, ap, ◌∙◌, true, false, Option, none, some, [], ◌∷◌, ◌++◌,
  length, update_at, ltb, leb, ◌==◌, Bool-cases, if_both, inl, inr,
}
use dann.Dict.{Text, find, assign, erase, text_key, find-assign_self}
use dann.Types.{Outcome, returned}
use dann.Logger.{LogLevel, level_number, Process, Files, Logger}
use dann.Logger.Rotating.{
  backup_name, open_file, close_file, after_rename, after_shift, rotate_files,
}
use dann.Logger.Writing.{
  contents_of, write_line, write_to_stream, opened, write_to_file, write_to_console, update_stats,
  initialize, log,
}
use dann.Logger.Format.{format_message}
use dann.Logger.Rotation.{rotate_files-named, rename-found}

-- The file that is open, if one is, is the output file.
pub record IsAttached (s : Logger) : Type 0 where
  pub attached : (s.file_stream ≡ none) ⊎ (s.file_stream ≡ some s.output_file)

-- From s to t no message is counted.
pub record Continues (s t : Logger) : Type 0 where
  pub same_total : t.stats.total_messages ≡ s.stats.total_messages
  pub same_levels : t.stats.messages_by_level ≡ s.stats.messages_by_level
  pub same_level : t.level ≡ s.level
  pub still_attached : IsAttached t

Continues-self : (s : Logger) → IsAttached s → Continues s s
Continues-self s h = record {
  same_total = refl;
  same_levels = refl;
  same_level = refl;
  still_attached = h;
}

Continues-same :
    (s t : Logger)
    → t.stats ≡ s.stats
    → t.level ≡ s.level
    → t.output_file ≡ s.output_file
    → t.file_stream ≡ s.file_stream
    → IsAttached s
    → Continues s t
Continues-same s t stats level output stream h = record {
  same_total = ap (λ x. x.total_messages) stats;
  same_levels = ap (λ x. x.messages_by_level) stats;
  same_level = level;
  still_attached = record { attached = rw (output, stream) h.attached };
}

Continues-trans : (s t u : Logger) → Continues s t → Continues t u → Continues s u
Continues-trans s t u h k = record {
  same_total = k.same_total ∙ h.same_total;
  same_levels = k.same_levels ∙ h.same_levels;
  same_level = k.same_level ∙ h.same_level;
  still_attached = k.still_attached;
}

module _ (process : Process)
    (allowed : (path : Text) (files : Files) → process.refuses path files ≡ false) where
  open_file-Continues : (s : Logger) → IsAttached s → Continues s (open_file process s)
  unfolding open_file
  open_file-Continues s h =
      if_both (Continues s) (length s.output_file == 0) s _ (Continues-self s h) (
        if_both (Continues s) (process.opens s.output_file) _ _
          (record {
            same_total = refl;
            same_levels = refl;
            same_level = refl;
            still_attached = record { attached = inr refl };
          })
          (record {
            same_total = refl;
            same_levels = refl;
            same_level = refl;
            still_attached = record { attached = inl refl };
          }))

  rotate_files-Continues :
      (s : Logger) (c : Text)
      → IsAttached s
      → find s.output_file s.files ≡ some c
      → (t : Logger) × (rotate_files process s ≡ returned t) × Continues s t
  unfolding rotate_files close_file
  rotate_files-Continues s c h e = elim (Bool-cases (length s.output_file == 0)) [
    | inl y ↦ (s, rw y refl, Continues-self s h)
    | inr z ↦
        let files = assign (backup_name process s.output_file 1) c (erase s.output_file s.files) in
        (
          after_shift process (close_file process s) files,
          rotate_files-named process s z (allowed s.output_file s.files)
              ∙ ap (after_rename process (close_file process s)) (
                  rename-found process s.output_file (backup_name process s.output_file 1) c s.files
                    e),
          Continues-trans s _ _
              (record {
                same_total = refl;
                same_levels = refl;
                same_level = refl;
                still_attached = record { attached = inl refl };
              })
              (open_file-Continues _ (record { attached = inl refl })),
        )
  ]

  Returns : Logger → Outcome Logger → Type 0
  Returns s o = (t : Logger) × (o ≡ returned t) × Continues s t

  write_line-Returns :
      (message : Text) (s : Logger)
      → IsAttached s
      → Returns s (write_line process s.output_file message s)
  unfolding write_line Returns
  write_line-Returns message s h =
      let c = contents_of process (find s.output_file s.files) ++ message ++ 10 ∷ [] in
      let t : Logger = record s { files = assign s.output_file c s.files } in
      let kept : Continues s t = record {
        same_total = refl;
        same_levels = refl;
        same_level = refl;
        still_attached = record { attached = h.attached };
      } in
      if_both (Returns s) (ltb t.max_file_size (length c)) (rotate_files process t) (returned t)
        (let (u, ran, k) =
            rotate_files-Continues t c kept.still_attached
              (find-assign_self s.output_file c s.files) in
          (u, ran, Continues-trans s t u kept k))
        (t, refl, kept)

  write_to_stream-Returns :
      (message : Text) (s : Logger) (o : Option Text)
      → IsAttached s
      → (o ≡ none) ⊎ (o ≡ some s.output_file)
      → Returns s (write_to_stream process message s o)
  unfolding Returns
  write_to_stream-Returns message s o h (inl e) = rw e (s, refl, Continues-self s h)
  write_to_stream-Returns message s o h (inr e) = rw e (write_line-Returns message s h)

  opened-Continues :
      (s : Logger) (o : Option Text) → IsAttached s → Continues s (opened process s o)
  opened-Continues s none h = open_file-Continues s h
  opened-Continues s (some path) h = Continues-self s h

  write_to_file-Returns :
      (message : Text) (s : Logger) → IsAttached s → Returns s (write_to_file process message s)
  unfolding write_to_file Returns
  write_to_file-Returns message s h =
      let t = opened process s s.file_stream in
      let k = opened-Continues s s.file_stream h in
      if_both (Returns s) (length s.output_file == 0) (returned s) _ (s, refl, Continues-self s h)
        (let (u, ran, m) =
            write_to_stream-Returns message t t.file_stream k.still_attached
              k.still_attached.attached in
          (u, ran, Continues-trans s t u k m))

  write_to_console-Continues :
      (level : LogLevel) (message : Text) (s : Logger)
      → IsAttached s
      → Continues s (write_to_console process level message s)
  unfolding write_to_console
  write_to_console-Continues level message s h =
      if_both (Continues s) s.console_output _ s
        (if_both (Continues s) (leb (level_number level) 2) _ _
          (Continues-same s (record s { cout = s.cout ++ message ∷ [] }) refl refl refl refl h)
          (Continues-same s (record s { cerr = s.cerr ++ message ∷ [] }) refl refl refl refl h))
        (Continues-self s h)

  initialize-Continues : (s : Logger) → IsAttached s → Continues s (initialize process s)
  initialize-Continues s h =
      let k = open_file-Continues s h in
      if_both (Continues s) s.initialized s (record (open_file process s) { initialized = true })
        (Continues-self s h)
        (Continues-trans s (open_file process s) _ k (
          Continues-same (open_file process s) (record (open_file process s) { initialized = true })
            refl refl refl refl k.still_attached))

  -- A message that is logged is counted once, under its level, and nothing throws, as the file system
  -- refuses nothing.
  pub log-returns :
      (level : LogLevel) (message : Text) (s : Logger)
      → IsAttached s
      → (t : Logger) × (log process level message s ≡ returned t)
        × (t.stats.total_messages ≡ (s.stats.total_messages + 1) % size_mod)
        × (t.stats.messages_by_level
            ≡ update_at (level_number level) (λ n. (n + 1) % size_mod) s.stats.messages_by_level)
        × (t.level ≡ s.level)
        × IsAttached t
  unfolding log update_stats Returns
  log-returns level message s h =
      let t = initialize process s in
      let k = initialize-Continues s h in
      let formatted = format_message process level message t.pattern in
      let (u, ran, m) = write_to_file-Returns formatted t k.still_attached in
      let n = write_to_console-Continues level formatted u m.still_attached in
      let counted = Continues-trans s u _ (Continues-trans s t u k m) n in
      (
        update_stats process level (length formatted) (write_to_console process level formatted u),
        rw ran refl,
        rw counted.same_total refl,
        rw counted.same_levels refl,
        counted.same_level,
        record { attached = counted.still_attached.attached },
      )
