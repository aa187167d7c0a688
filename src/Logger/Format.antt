-- ===== src/Logger/Format.antt =====
-- How src/utils/logger.cpp writes a message after its pattern.
use dann.Prelude.{ℕ, ◌&&◌, [], ◌∷◌, ◌++◌, ◌==◌, if◌then◌else◌}
use dann.Dict.{Text, text_key}
use dann.Config.{text}
use dann.Logger.{
  LogLevel, trace_level, debug_level, info_level, warn_level, error_level, fatal_level, Process,
}

unfoldable pub level_to_string : LogLevel → Text
level_to_string trace_level = text "TRACE"
level_to_string debug_level = text "DEBUG"
level_to_string info_level = text "INFO"
level_to_string warn_level = text "WARN"
level_to_string error_level = text "ERROR"
level_to_string fatal_level = text "FATAL"

-- The first '%' that is followed by the character c goes, with c, and the value comes in its place.
unfoldable pub replace_first : ℕ → Text → Text → Text
replace_first c value [] = []
replace_first c value (a ∷ []) = a ∷ []
replace_first c value (a ∷ b ∷ rest) =
    let later = replace_first c value (b ∷ rest) in
    if (a == 37) && (b == c) then value ++ rest else a ∷ later

module _ (process : Process) where
  -- The placeholders in the order in which they are looked for: Y m d H M S l v t.
  unfoldable pub format_message : LogLevel → Text → Text → Text
  unfolding replace_first level_to_string
  format_message level message pattern =
      let year = replace_first 89 (process.strftime 89) pattern in
      let month = replace_first 109 (process.strftime 109) year in
      let day = replace_first 100 (process.strftime 100) month in
      let hour = replace_first 72 (process.strftime 72) day in
      let minute = replace_first 77 (process.strftime 77) hour in
      let second = replace_first 83 (process.strftime 83) minute in
      let with_level = replace_first 108 (level_to_string level) second in
      let with_message = replace_first 118 message with_level in
      replace_first 116 process.thread_id with_message
