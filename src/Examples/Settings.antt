-- ===== src/Examples/Settings.antt =====
-- The configuration and the metrics at concrete inputs. std::to_string writes a number in decimal, and
-- std::stoi is the one of MessageHandler/Digits.
use dann.Prelude.{
  ℕ, zero, suc, ◌+◌, ◌/◌, ◌%◌, if◌then◌else◌, ◌==◌, ◌≡◌, refl, false, some, Option, [], ◌∷◌, ◌++◌,
  ℤ, pos, negsuc, arith,
}
use dann.Dict.{Text, find, text_key}
use dann.Types.{returned}
use dann.Config.{Numbers, text, set_network_config}
use dann.Config.Defaults.{default_network_config}
use dann.Config.Values.{set_string_list}
use dann.Config.Lists.{get_string_list, IsItem, get_string_list-set_string_list}
use dann.Config.Access.{read_network_config, read_network_config-set_network_config}
use dann.MessageHandler.Digits.{stoi, skip_spaces, signed, magnitude, leading}
use dann.Metrics.{DoubleOps, Metrics, start}
use dann.Metrics.Reading.{get_histogram_values}
use dann.Metrics.Updates.{}
use dann.Metrics.Samples.{latest, record_all, record_all-latest}
use dann.Metrics.Labels.{unescape, escape_prometheus_label, unescape-escape_prometheus_label}

-- The digits of n before those that are there; an int has at most ten.
abbrev pub digits_from : ℕ → ℕ → Text → Text
digits_from zero n digits = digits
digits_from (suc rounds) n digits =
    let rest = digits_from rounds (n / 10) ((48 + n % 10) ∷ digits) in
    if n / 10 == 0 then (48 + n % 10) ∷ digits else rest

-- std::to_string of an int
abbrev pub decimal : ℤ → Text
decimal (pos n) = digits_from 10 n []
decimal (negsuc n) = 45 ∷ digits_from 10 (suc n) []

abbrev decimals : Numbers
decimals = record { to_string = decimal; stoi = stoi }

read_network_config-set_network_config_example :
    read_network_config decimals (set_network_config decimals default_network_config [])
    ≡ returned default_network_config
unfolding stoi skip_spaces signed magnitude leading
read_network_config-set_network_config_example =
    read_network_config-set_network_config decimals default_network_config [] refl refl refl refl
      refl

a-IsItem : IsItem (text "a")
a-IsItem = record {
  no_comma = (omega arith, tt);
  some_text = refl;
  blank_free_start = (omega arith, omega arith);
  blank_free_end = (omega arith, omega arith);
}

b_c-IsItem : IsItem (text "b c")
b_c-IsItem = record {
  no_comma = (omega arith, (omega arith, (omega arith, tt)));
  some_text = refl;
  blank_free_start = (omega arith, omega arith);
  blank_free_end = (omega arith, omega arith);
}

get_string_list-set_string_list_example :
    get_string_list false
      (text "id" ++ 46 ∷ text "value")
      []
      (set_string_list decimals (text "id") (text "a" ∷ text "b c" ∷ []) [])
    ≡ returned (text "a" ∷ text "b c" ∷ [])
get_string_list-set_string_list_example =
    get_string_list-set_string_list decimals (text "id") (text "a" ∷ text "b c" ∷ []) [] []
      (omega arith, (omega arith, tt)) (omega arith) (a-IsItem, (b_c-IsItem, tt))

abbrev home : Text → Option Text
home name = some (text "/root")

abbrev pub whole : DoubleOps
whole = record {
  plus = λ a b. a + b;
  negate = λ a. a;
  times = λ a b. a;
  divide = λ a b. a;
  of_count = λ n. n;
  order = λ a. a;
  percent_index = λ p n. p;
  data_size = 8;
}

record_all-latest_example :
    get_histogram_values (text "ms") (record_all (text "ms") (4 ∷ 2 ∷ 9 ∷ []) start)
    ≡ latest 10000 (4 ∷ 2 ∷ 9 ∷ [])
unfolding find start
record_all-latest_example = record_all-latest (text "ms") 4 (2 ∷ 9 ∷ []) start refl

abbrev sampled : Metrics
sampled = record_all (text "ms") (4 ∷ 2 ∷ 9 ∷ []) start

unescape-escape_prometheus_label_example :
    unescape (escape_prometheus_label (97 ∷ 34 ∷ 92 ∷ [])) ≡ 97 ∷ 34 ∷ 92 ∷ []
unescape-escape_prometheus_label_example = unescape-escape_prometheus_label (97 ∷ 34 ∷ 92 ∷ [])
