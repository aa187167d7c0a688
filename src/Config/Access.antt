-- ===== src/Config/Access.antt =====
-- What the getters of single values read after a value has been set.
use dann.Prelude.{
  ℕ, ◌<◌, ◌≡◌, ◌≢◌, refl, ap, ◌∙◌, Bool, true, false, Option, none, some, List, [], ◌∷◌, ◌++◌,
  length, All, ◌==◌, if◌then◌else◌, ℤ, pos, arith, Bool-cases, Option-cases, inl, inr,
}
use dann.Dict.{Text, find, assign, text_key, same_key, same_key_refl, same_text→eq, find-assign}
use dann.Types.{Outcome, returned, ◌>>=◌}
use dann.Config.{
  Numbers, ConfigData, text, section_or_empty, put, put_all, set_nested_value, show_bool,
  NetworkConfig, network_entries, set_network_config,
}
use dann.Config.Values.{
  split_dot, entry_at, lookup_key, get_string, is_yes, get_bool, get_int, set_string,
}

-- A write changes what is found at its section and key, and nothing else.
entry_at-put :
    (s s' k k' v : Text) (d : ConfigData)
    → entry_at s' k' (put s k v d) ≡ (
        if same_key s s'
        then (if same_key k k' then some v else entry_at s' k' d)
        else entry_at s' k' d)
unfolding entry_at put find
entry_at-put s s' k k' v d =
    rw (put, entry_at, find-assign s s' (assign k v (section_or_empty (find s d))) d)
      (elim (Bool-cases (same_key s s')) [
        | inl e ↦
            let same : s ≡ s' = same_text→eq s s' e in
            rw (e, find-assign k k' v (section_or_empty (find s d)))
              (elim (Option-cases (find s d)) [
                | inl missing ↦
                    let missing' : find s' d ≡ none = rw (← same) missing in
                    rw (missing, entry_at, missing', find)
                | inr (entries, present) ↦
                    let present' : find s' d ≡ some entries = rw (← same) present in
                    rw (present, entry_at, present')
              ])
        | inr e ↦ rw e
      ])

-- The last entry for a key.
unfoldable pub last_entry : Text → List (Text × Text) → Option Text → Option Text
last_entry key [] found = found
last_entry key ((k, v) ∷ entries) found =
    last_entry key entries (if same_key k key then some v else found)

entry_at-put_all :
    (s k : Text) (entries : List (Text × Text)) (d : ConfigData)
    → entry_at s k (put_all s entries d) ≡ last_entry k entries (entry_at s k d)
unfolding put_all last_entry
entry_at-put_all s k [] d = refl
entry_at-put_all s k ((j, v) ∷ entries) d =
    entry_at-put_all s k entries (put s j v d) ∙ rw (entry_at-put s s j k v d, same_key_refl s)

split_dot-length :
    (key section subsection : Text)
    → split_dot key ≡ some (section, subsection)
    → length section < length key
unfolding split_dot
split_dot-length [] section subsection e = ground arith
split_dot-length (c ∷ key) section subsection e = elim (Bool-cases (c == 46)) [
  | inl y ↦ ground (arith, (rw y at e))
  | inr z ↦ elim (Option-cases (split_dot key)) [
    | inl missing ↦ ground (arith, (rw (z, missing) at e))
    | inr ((first, rest), present) ↦
        ground (arith, (rw (z, present) at e), split_dot-length key first rest present)
  ]
]

-- A value that is set under a key is not what get_string reads under that key: get_string reads what it
-- read before, with a dot in the key or without.
lookup_key-set_string :
    (lib : Numbers) (key value default_value : Text) (d : ConfigData)
    → lookup_key key default_value (set_string lib key value d) ≡ lookup_key key default_value d
unfolding lookup_key set_string set_nested_value
lookup_key-set_string lib key value default_value d = elim (Option-cases (split_dot key)) [
  | inl missing ↦ rw (missing, lookup_key)
  | inr ((section, subsection), present) ↦
      rw (present, lookup_key)
        (rw (
          entry_at-put key section (text "value") subsection value d,
          differ section (split_dot-length key section subsection present),
        ))
]
  where
    differ : (section : Text) → length section < length key → same_key key section ≡ false
    differ section shorter = elim (Bool-cases (same_key key section)) [
      | inl e ↦
          let same : key ≡ section = same_text→eq key section e in
          absurd (omega (arith, ap {B = ℕ} length same))
      | inr e ↦ e
    ]

split_dot-append :
    (key rest : Text) → All (λ c. c ≢ 46) key → split_dot (key ++ 46 ∷ rest) ≡ some (key, rest)
unfolding split_dot
split_dot-append [] rest h = refl
split_dot-append (c ∷ key) rest h =
    let no_dot : (c == 46) ≡ false = ground arith in rw (no_dot, split_dot-append key rest h.1)

-- A value that is set under a key without a dot is read under that key followed by ".value".
pub get_string-set_string :
    (lib : Numbers) (key value default_value : Text) (d : ConfigData)
    → All (λ c. c ≢ 46) key
    → get_string false (key ++ 46 ∷ text "value") default_value (set_string lib key value d)
      ≡ returned value
unfolding get_string lookup_key set_string set_nested_value
get_string-set_string lib key value default_value d h = rw (
  split_dot-append key (text "value") h,
  lookup_key,
  entry_at-put key key (text "value") (text "value") value d,
  same_key_refl key,
)

-- The stored records, read back one value at a time.
abbrev pub read_int : Numbers → Text → ConfigData → Outcome ℤ
read_int lib key d = get_int lib false key (pos 0) d

unfoldable pub read_network_config : Numbers → ConfigData → Outcome NetworkConfig
read_network_config lib d = read_int lib (text "network.max_connections") d >>= (λ max_connections.
    read_int lib (text "network.connection_timeout_ms") d >>= (λ connection_timeout_ms.
      read_int lib (text "network.read_timeout_ms") d >>= (λ read_timeout_ms.
        read_int lib (text "network.write_timeout_ms") d >>= (λ write_timeout_ms.
          get_bool false (text "network.compression_enabled") false d >>= (λ compression_enabled.
            read_int lib (text "network.max_retries") d >>= (λ max_retries.
              get_string false (text "network.load_balance_strategy") [] d
              >>= (λ load_balance_strategy. returned (record {
                max_connections = max_connections;
                connection_timeout_ms = connection_timeout_ms;
                read_timeout_ms = read_timeout_ms;
                write_timeout_ms = write_timeout_ms;
                compression_enabled = compression_enabled;
                max_retries = max_retries;
                load_balance_strategy = load_balance_strategy;
              }))))))))

-- std::stoi reads back what std::to_string writes of n, as it does for an int.
abbrev pub IsReadBack : Numbers → ℤ → Type 0
IsReadBack lib n = lib.stoi (lib.to_string n) ≡ some n

module _ (lib : Numbers) where
  read_int-entry :
      (key section subsection : Text) (n : ℤ) (d : ConfigData)
      → IsReadBack lib n
      → split_dot key ≡ some (section, subsection)
      → entry_at section subsection d ≡ some (lib.to_string n)
      → read_int lib key d ≡ returned n
  unfolding get_int get_string lookup_key
  read_int-entry key section subsection n d reads split found = rw (split, lookup_key, found, reads)

get_bool-entry :
    (key section subsection : Text) (b : Bool) (d : ConfigData)
    → split_dot key ≡ some (section, subsection)
    → entry_at section subsection d ≡ some (show_bool b)
    → get_bool false key false d ≡ returned b
unfolding get_bool get_string lookup_key is_yes
get_bool-entry key section subsection true d split found = rw (split, lookup_key, found)
get_bool-entry key section subsection false d split found = rw (split, lookup_key, found)

get_string-entry :
    (key section subsection value : Text) (d : ConfigData)
    → split_dot key ≡ some (section, subsection)
    → entry_at section subsection d ≡ some value
    → get_string false key [] d ≡ returned value
unfolding get_string lookup_key
get_string-entry key section subsection value d split found = rw (split, lookup_key, found)

-- If std::stoi reads back what std::to_string writes of the five numbers of a network configuration,
-- every field of one that has been set is read back from its key, whatever the configuration held
-- before.
pub read_network_config-set_network_config :
    (lib : Numbers) (c : NetworkConfig) (d : ConfigData)
    → IsReadBack lib c.max_connections
    → IsReadBack lib c.connection_timeout_ms
    → IsReadBack lib c.read_timeout_ms
    → IsReadBack lib c.write_timeout_ms
    → IsReadBack lib c.max_retries
    → read_network_config lib (set_network_config lib c d) ≡ returned c
unfolding read_network_config set_network_config split_dot network_entries last_entry
read_network_config-set_network_config lib c d r₁ r₂ r₃ r₄ r₅ = rw (
  int (text "network.max_connections") (text "max_connections") c.max_connections r₁ refl refl,
  int (text "network.connection_timeout_ms") (text "connection_timeout_ms") c.connection_timeout_ms
      r₂ refl refl,
  int (text "network.read_timeout_ms") (text "read_timeout_ms") c.read_timeout_ms r₃ refl refl,
  int (text "network.write_timeout_ms") (text "write_timeout_ms") c.write_timeout_ms r₄ refl refl,
  get_bool-entry (text "network.compression_enabled") (text "network") (text "compression_enabled")
      c.compression_enabled (set_network_config lib c d) refl (entry (text "compression_enabled")),
  int (text "network.max_retries") (text "max_retries") c.max_retries r₅ refl refl,
  get_string-entry (text "network.load_balance_strategy") (text "network")
      (text "load_balance_strategy") c.load_balance_strategy (set_network_config lib c d) refl
      (entry (text "load_balance_strategy")),
)
  where
    entry :
        (key : Text)
        → entry_at (text "network") key (set_network_config lib c d)
          ≡ last_entry key (network_entries lib c) (entry_at (text "network") key d)
    entry key = entry_at-put_all (text "network") key (network_entries lib c) d

    int :
        (full key : Text) (n : ℤ)
        → IsReadBack lib n
        → split_dot full ≡ some (text "network", key)
        → last_entry key (network_entries lib c) (entry_at (text "network") key d)
          ≡ some (lib.to_string n)
        → read_int lib full (set_network_config lib c d) ≡ returned n
    int full key n reads split last =
        read_int-entry lib full (text "network") key n (set_network_config lib c d) reads split
          (entry key ∙ last)
