-- ===== src/Config/Lists.antt =====
-- src/utils/config.cpp: lists of texts, numbers with a fraction, the sections, and what is taken from
-- environment variables.
use mathlib.Core.List.{reverse-reverse}
use dann.Prelude.{
  ℕ, ◌≡◌, ◌≢◌, refl, ap, ◌∙◌, Bool, true, false, ◌||◌, Option, none, some, List, [], ◌∷◌, ◌++◌, map,
  reverse, append-nil, append_assoc, All, length, length-append, ◌<◌, ◌==◌, if◌then◌else◌, arith,
}
use dann.Dict.{Text, find, text_key}
use dann.Types.{Outcome, returned, ◌>>=◌}
use dann.Metrics.{Double}
use dann.Config.{Numbers, ConfigData, text, join, put}
use dann.Config.Values.{get_string, set_string, set_string_list}
use dann.Config.Access.{get_string-set_string}

abbrev is_blank : ℕ → Bool
is_blank c = (c == 32) || (c == 9)

unfoldable pub drop_blanks : Text → Text
drop_blanks [] = []
drop_blanks (c ∷ t) = let rest = drop_blanks t in if is_blank c then rest else c ∷ t

-- No blank at either end.
unfoldable pub trim : Text → Text
unfolding drop_blanks
trim t = reverse (drop_blanks (reverse (drop_blanks t)))

abbrev add_item : Text → List Text → List Text
add_item item items = if length item == 0 then items else item ∷ items

-- std::getline up to each comma, with `item` what has been read of the item so far; an item that is
-- empty when it is trimmed is passed over.
unfoldable pub items_from : Text → Text → List Text
unfolding trim
items_from [] item = add_item (trim item) []
items_from (c ∷ t) item =
    let next = items_from t [] in
    let same = items_from t (item ++ c ∷ []) in if c == 44 then add_item (trim item) next else same

unfoldable pub get_string_list : Bool → Text → List Text → ConfigData → Outcome (List Text)
unfolding get_string items_from
get_string_list held key default_value config_data = get_string held key [] config_data >>= λ value.
    returned (if length value == 0 then default_value else items_from value [])

abbrev double_or : Double → Option Double → Double
double_or default_value none = default_value
double_or default_value (some d) = d

-- std::to_string and std::stod are parameters.
unfoldable pub get_double :
    (Double → Text) → (Text → Option Double) → Bool → Text → Double → ConfigData → Outcome Double
unfolding get_string
get_double to_string stod held key default_value config_data =
    get_string held key (to_string default_value) config_data >>= λ value.
    returned (double_or default_value (stod value))

unfoldable pub set_double : Numbers → (Double → Text) → Text → Double → ConfigData → ConfigData
unfolding set_string
set_double lib to_string key value config_data = set_string lib key (to_string value) config_data

unfoldable pub get_sections : ConfigData → List Text
get_sections config_data = map (λ e. e.0) config_data

unfoldable pub has_section : Text → ConfigData → Bool
has_section section config_data = elim (find section config_data) [ none ↦ false | some e ↦ true ]

unfoldable pub get_section : Text → ConfigData → List (Text × Text)
get_section section config_data = elim (find section config_data) [ none ↦ [] | some e ↦ e ]

unfoldable pub put_variable : Text → Text → Option Text → ConfigData → ConfigData
unfolding put
put_variable section key none config_data = config_data
put_variable section key (some value) config_data = put section key value config_data

unfoldable pub load_from_env : (Text → Option Text) → ConfigData → ConfigData
unfolding put_variable
load_from_env getenv config_data =
    let id = put_variable (text "node") (text "id") (getenv (text "DANN_NODE_ID")) config_data in
    let address =
      put_variable (text "node") (text "address") (getenv (text "DANN_NODE_ADDRESS")) id in
    let port = put_variable (text "node") (text "port") (getenv (text "DANN_NODE_PORT")) address in
    let dimension =
      put_variable (text "index") (text "dimension") (getenv (text "DANN_INDEX_DIMENSION")) port in
    put_variable (text "index") (text "type") (getenv (text "DANN_INDEX_TYPE")) dimension

-- The first character, if there is one, is neither a space nor a tab.
abbrev pub Inked : Text → Type 0
Inked [] = Unit
Inked (c ∷ t) = (c ≢ 32) × (c ≢ 9)

-- An item that a list can hold: it has no comma, is not empty and has no blank at either end.
pub record IsItem (item : Text) : Type 0 where
  pub no_comma : All (λ c. c ≢ 44) item
  pub some_text : (length item == 0) ≡ false
  pub blank_free_start : Inked item
  pub blank_free_end : Inked (reverse item)

drop_blanks-Inked : (t : Text) → Inked t → drop_blanks t ≡ t
unfolding drop_blanks
drop_blanks-Inked [] h = refl
drop_blanks-Inked (c ∷ t) h = let seen : is_blank c ≡ false = ground (arith, h.0, h.1) in rw seen

trim-Inked : (t : Text) → Inked t → Inked (reverse t) → trim t ≡ t
unfolding trim
trim-Inked t h k = rw (drop_blanks-Inked t h, drop_blanks-Inked (reverse t) k) (reverse-reverse t)

trim_item : (item : Text) → IsItem item → trim item ≡ item
trim_item item h = trim-Inked item h.blank_free_start h.blank_free_end

items_from-comma :
    (l r item : Text)
    → All (λ c. c ≢ 44) l
    → items_from (l ++ 44 ∷ r) item ≡ add_item (trim (item ++ l)) (items_from r [])
unfolding items_from
items_from-comma [] r item h = rw append-nil
items_from-comma (c ∷ l) r item h =
    let other : (c == 44) ≡ false = ground (arith, h.0) in
    rw other (items_from-comma l r (item ++ c ∷ []) h.1 ∙ rw append_assoc)

items_from-last :
    (l item : Text) → All (λ c. c ≢ 44) l → items_from l item ≡ add_item (trim (item ++ l)) []
unfolding items_from
items_from-last [] item h = rw append-nil
items_from-last (c ∷ l) item h =
    let other : (c == 44) ≡ false = ground (arith, h.0) in
    rw other (items_from-last l (item ++ c ∷ []) h.1 ∙ rw append_assoc)

items_from-join :
    (items : List Text) → 0 < length items → All IsItem items → items_from (join items) [] ≡ items
unfolding join
items_from-join [] n h = absurd (omega arith)
items_from-join (item ∷ []) n h =
    items_from-last item [] h.0.no_comma ∙ rw (trim_item item h.0, h.0.some_text) refl
items_from-join (item ∷ next ∷ items) n h =
    items_from-comma item (join (next ∷ items)) [] h.0.no_comma
    ∙ rw (trim_item item h.0, h.0.some_text, items_from-join (next ∷ items) (omega arith) h.1) refl

length-join :
    (items : List Text) → 0 < length items → All IsItem items → (length (join items) == 0) ≡ false
unfolding join
length-join [] n h = absurd (omega arith)
length-join (item ∷ []) n h = h.0.some_text
length-join (item ∷ next ∷ items) n h =
    ground (arith, length-append item (44 ∷ join (next ∷ items)))

-- A list of at least one item, whose items are not empty, have no comma and have no blank at either end,
-- is read back under its key, which has no dot, followed by ".value".
pub get_string_list-set_string_list :
    (lib : Numbers) (key : Text) (items default_value : List Text) (d : ConfigData)
    → All (λ c. c ≢ 46) key
    → 0 < length items
    → All IsItem items
    → get_string_list false
        (key ++ 46 ∷ text "value")
        default_value
        (set_string_list lib key items d)
      ≡ returned items
unfolding get_string_list set_string_list
get_string_list-set_string_list lib key items default_value d k n h =
    ap
      (λ o.
        o >>= λ value. returned (if length value == 0 then default_value else items_from value []))
      (get_string-set_string lib key (join items) [] d k)
    ∙ rw (length-join items n h) (ap returned (items_from-join items n h))
