-- ===== src/Config.antt =====
-- src/utils/config.cpp: the configuration as texts by section and key, and the six records that are
-- stored into it. This file has the state, the access to one value and the setters.
pub mod Values
pub mod Defaults
pub mod Sections
pub mod Validation
pub mod Env
pub mod Access
pub mod Lists
use Prim.Native.Char.{Char, code}
use Prim.Native.String.{String}
use dann.Prelude.{
  ℕ, Bool, true, false, Option, none, some, List, [], ◌∷◌, ◌++◌, map, if◌then◌else◌, ℤ, pos,
}
use dann.Dict.{Text, find, assign, text_key}

-- The characters of a literal.
abbrev pub text : String → Text
text String.[] = []
text (String.◌∷◌ c s) = code c ∷ text s

-- std::to_string and std::stoi, which has no result where it throws.
pub record Numbers : Type 0 where
  pub to_string : ℤ → Text
  pub stoi : Text → Option ℤ

abbrev pub ConfigData : Type 0
ConfigData = List (Text × List (Text × Text))

abbrev pub section_or_empty : Option (List (Text × Text)) → List (Text × Text)
section_or_empty none = []
section_or_empty (some section) = section

-- `config_data_[section][key] = value`
unfoldable pub put : Text → Text → Text → ConfigData → ConfigData
put section key value config_data =
    assign section (assign key value (section_or_empty (find section config_data))) config_data

-- set_nested_value with one key, and with more
unfoldable pub set_nested_value : List Text → Text → ConfigData → ConfigData
unfolding put
set_nested_value [] value config_data = config_data
set_nested_value (section ∷ []) value config_data = put section (text "value") value config_data
set_nested_value (section ∷ key ∷ keys) value config_data = put section key value config_data

-- With one key: the value of the first entry of the section.
first_value : List (Text × Text) → Text → Text
first_value [] default_value = default_value
first_value ((k, v) ∷ section) default_value = v

unfoldable pub get_nested_value : List Text → Text → ConfigData → Text
unfolding first_value
get_nested_value [] default_value config_data = default_value
get_nested_value (section ∷ keys) default_value config_data = elim (find section config_data) [
  | none ↦ default_value
  | some entries ↦ elim keys [
    | [] ↦ first_value entries default_value
    | ◌∷◌ key rest ↦ elim (find key entries) [ none ↦ default_value | some value ↦ value ]
  ]
]

abbrev pub show_bool : Bool → Text
show_bool true = text "true"
show_bool false = text "false"

-- Joined by commas.
unfoldable pub join : List Text → Text
join [] = []
join (item ∷ []) = item
join (item ∷ next ∷ items) = item ++ 44 ∷ join (next ∷ items)

pub record NodeConfig : Type 0 where
  pub id : Text
  pub address : Text
  pub port : ℤ
  pub seed_nodes : List Text
  pub shard_ids : List ℤ
  pub replication_factor : ℤ

-- The setter does not store the parameters.
pub record IndexConfig : Type 0 where
  pub dimension : ℤ
  pub index_type : Text
  pub parameters : List (Text × Text)
  pub storage_path : Text
  pub auto_save : Bool
  pub save_interval_seconds : ℤ

pub record PerformanceConfig : Type 0 where
  pub batch_size : ℤ
  pub max_concurrent_loads : ℤ
  pub max_concurrent_queries : ℤ
  pub cache_enabled : Bool
  pub cache_size : ℕ
  pub query_timeout_ms : ℤ
  pub load_timeout_ms : ℤ

pub record NetworkConfig : Type 0 where
  pub max_connections : ℤ
  pub connection_timeout_ms : ℤ
  pub read_timeout_ms : ℤ
  pub write_timeout_ms : ℤ
  pub compression_enabled : Bool
  pub max_retries : ℤ
  pub load_balance_strategy : Text

pub record StorageConfig : Type 0 where
  pub storage_type : Text
  pub redis_host : Text
  pub redis_port : ℤ
  pub redis_db : ℤ
  pub local_storage_path : Text
  pub local_cache_size : ℕ
  pub compression_enabled : Bool
  pub encryption_enabled : Bool
  pub encryption_key : Text

pub record LoggingConfig : Type 0 where
  pub level : Text
  pub output_file : Text
  pub console_output : Bool
  pub max_file_size_mb : ℕ
  pub max_files : ℤ
  pub pattern_text : Text

-- A series of writes to one section.
unfoldable pub put_all : Text → List (Text × Text) → ConfigData → ConfigData
unfolding put
put_all section [] config_data = config_data
put_all section ((key, value) ∷ entries) config_data =
    put_all section entries (put section key value config_data)

module _ (lib : Numbers) where
  unfoldable pub node_entries : NodeConfig → List (Text × Text)
  unfolding join
  node_entries c =
      (text "id", c.id)
      ∷ (text "address", c.address)
      ∷ (text "port", lib.to_string c.port)
      ∷ (text "seed_nodes", join c.seed_nodes)
      ∷ (text "shard_ids", join (map lib.to_string c.shard_ids))
      ∷ (text "replication_factor", lib.to_string c.replication_factor)
      ∷ []

  unfoldable pub set_node_config : NodeConfig → ConfigData → ConfigData
  unfolding put_all node_entries
  set_node_config c = put_all (text "node") (node_entries c)

  unfoldable pub index_entries : IndexConfig → List (Text × Text)
  index_entries c =
      (text "dimension", lib.to_string c.dimension)
      ∷ (text "type", c.index_type)
      ∷ (text "storage_path", c.storage_path)
      ∷ (text "auto_save", show_bool c.auto_save)
      ∷ (text "save_interval_seconds", lib.to_string c.save_interval_seconds)
      ∷ []

  unfoldable pub set_index_config : IndexConfig → ConfigData → ConfigData
  unfolding put_all index_entries
  set_index_config c = put_all (text "index") (index_entries c)

  unfoldable pub performance_entries : PerformanceConfig → List (Text × Text)
  performance_entries c =
      (text "batch_size", lib.to_string c.batch_size)
      ∷ (text "max_concurrent_loads", lib.to_string c.max_concurrent_loads)
      ∷ (text "max_concurrent_queries", lib.to_string c.max_concurrent_queries)
      ∷ (text "cache_enabled", show_bool c.cache_enabled)
      ∷ (text "cache_size", lib.to_string (pos c.cache_size))
      ∷ (text "query_timeout_ms", lib.to_string c.query_timeout_ms)
      ∷ (text "load_timeout_ms", lib.to_string c.load_timeout_ms)
      ∷ []

  unfoldable pub set_performance_config : PerformanceConfig → ConfigData → ConfigData
  unfolding put_all performance_entries
  set_performance_config c = put_all (text "performance") (performance_entries c)

  unfoldable pub network_entries : NetworkConfig → List (Text × Text)
  network_entries c =
      (text "max_connections", lib.to_string c.max_connections)
      ∷ (text "connection_timeout_ms", lib.to_string c.connection_timeout_ms)
      ∷ (text "read_timeout_ms", lib.to_string c.read_timeout_ms)
      ∷ (text "write_timeout_ms", lib.to_string c.write_timeout_ms)
      ∷ (text "compression_enabled", show_bool c.compression_enabled)
      ∷ (text "max_retries", lib.to_string c.max_retries)
      ∷ (text "load_balance_strategy", c.load_balance_strategy)
      ∷ []

  unfoldable pub set_network_config : NetworkConfig → ConfigData → ConfigData
  unfolding put_all network_entries
  set_network_config c = put_all (text "network") (network_entries c)

  unfoldable pub storage_entries : StorageConfig → List (Text × Text)
  storage_entries c =
      (text "type", c.storage_type)
      ∷ (text "redis_host", c.redis_host)
      ∷ (text "redis_port", lib.to_string c.redis_port)
      ∷ (text "redis_db", lib.to_string c.redis_db)
      ∷ (text "local_storage_path", c.local_storage_path)
      ∷ (text "local_cache_size", lib.to_string (pos c.local_cache_size))
      ∷ (text "compression_enabled", show_bool c.compression_enabled)
      ∷ (text "encryption_enabled", show_bool c.encryption_enabled)
      ∷ (text "encryption_key", c.encryption_key)
      ∷ []

  unfoldable pub set_storage_config : StorageConfig → ConfigData → ConfigData
  unfolding put_all storage_entries
  set_storage_config c = put_all (text "storage") (storage_entries c)

  unfoldable pub logging_entries : LoggingConfig → List (Text × Text)
  logging_entries c =
      (text "level", c.level)
      ∷ (text "output_file", c.output_file)
      ∷ (text "console_output", show_bool c.console_output)
      ∷ (text "max_file_size_mb", lib.to_string (pos c.max_file_size_mb))
      ∷ (text "max_files", lib.to_string c.max_files)
      ∷ (text "pattern", c.pattern_text)
      ∷ []

  unfoldable pub set_logging_config : LoggingConfig → ConfigData → ConfigData
  unfolding put_all logging_entries
  set_logging_config c = put_all (text "logging") (logging_entries c)
