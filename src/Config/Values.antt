-- ===== src/Config/Values.antt =====
-- One value by its key `section.key`. config_mutex_ is not recursive: to lock it in a thread that holds
-- it is undefined. The first argument of the getters says whether the thread holds it.
use dann.Prelude.{
  ℕ, ◌+◌, Bool, ◌&&◌, ◌||◌, Option, none, some, List, [], ◌∷◌, map, leb, ◌==◌, if◌then◌else◌, ℤ,
}
use dann.Dict.{Text, find, text_key, same_text}
use dann.Types.{Outcome, returned, undefined, ◌>>=◌}
use dann.Config.{Numbers, ConfigData, text, show_bool, join, set_nested_value}

-- The text before the first dot and the text behind it.
unfoldable pub split_dot : Text → Option (Text × Text)
split_dot [] = none
split_dot (c ∷ key) =
    let rest = split_dot key in
    if c == 46
    then some ([], key)
    else elim rest [ none ↦ none | some (section, subsection) ↦ some (c ∷ section, subsection) ]

unfoldable pub entry_at : Text → Text → ConfigData → Option Text
entry_at section key config_data = elim (find section config_data) [
  | none ↦ none
  | some entries ↦ find key entries
]

abbrev pub or_default : Text → Option Text → Text
or_default default_value none = default_value
or_default default_value (some value) = value

unfoldable pub lookup_key : Text → Text → ConfigData → Text
unfolding split_dot entry_at
lookup_key key default_value config_data = elim (split_dot key) [
  | none ↦ default_value
  | some (section, subsection) ↦ or_default default_value (entry_at section subsection config_data)
]

unfoldable pub get_string : Bool → Text → Text → ConfigData → Outcome Text
unfolding lookup_key
get_string held key default_value config_data =
    if held then undefined else returned (lookup_key key default_value config_data)

abbrev pub to_lower : ℕ → ℕ
to_lower c = if leb 65 c && leb c 90 then c + 32 else c

unfoldable pub is_yes : Text → Bool
is_yes value =
    same_text value (text "true")
    || same_text value (text "1")
    || same_text value (text "yes")
    || same_text value (text "on")

unfoldable pub get_bool : Bool → Text → Bool → ConfigData → Outcome Bool
unfolding get_string is_yes
get_bool held key default_value config_data =
    get_string held key (show_bool default_value) config_data
    >>= (λ value. returned (is_yes (map to_lower value)))

abbrev pub int_or : ℤ → Option ℤ → ℤ
int_or default_value none = default_value
int_or default_value (some n) = n

module _ (lib : Numbers) where
  unfoldable pub get_int : Bool → Text → ℤ → ConfigData → Outcome ℤ
  unfolding get_string
  get_int held key default_value config_data =
      get_string held key (lib.to_string default_value) config_data
      >>= (λ value. returned (int_or default_value (lib.stoi value)))

  unfoldable pub set_string : Text → Text → ConfigData → ConfigData
  unfolding set_nested_value
  set_string key value config_data = set_nested_value (key ∷ []) value config_data

  unfoldable pub set_int : Text → ℤ → ConfigData → ConfigData
  unfolding set_string
  set_int key value = set_string key (lib.to_string value)

  unfoldable pub set_bool : Text → Bool → ConfigData → ConfigData
  unfolding set_string
  set_bool key value = set_string key (show_bool value)

  unfoldable pub set_string_list : Text → List Text → ConfigData → ConfigData
  unfolding set_string join
  set_string_list key value = set_string key (join value)
