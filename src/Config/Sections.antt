-- ===== src/Config/Sections.antt =====
-- The getters of the six records. Each getter holds config_mutex_ while it reads.
use dann.Prelude.{
  Bool, true, false, Option, none, some, List, [], ◌∷◌, ◌++◌, ◌==◌, if◌then◌else◌, ℤ, pos, to_size,
}
use dann.Dict.{Text, text_key}
use dann.Types.{Outcome, returned, thrown, ◌>>=◌}
use dann.Config.{
  Numbers, ConfigData, text, show_bool, get_nested_value, NodeConfig, IndexConfig,
  PerformanceConfig, NetworkConfig, StorageConfig, LoggingConfig,
}
use dann.Config.Values.{get_bool, get_int}
use dann.Config.Defaults.{
  default_node_config, default_index_config, default_performance_config, default_network_config,
  default_storage_config, default_logging_config,
}

-- std::getline with a comma: `piece` has been read, and a text that ends in a comma has no last
-- empty piece.
getlines : Text → Text → List Text
getlines [] [] = []
getlines [] (c ∷ piece) = (c ∷ piece) ∷ []
getlines (c ∷ rest) piece =
    let after = getlines rest [] in
    let longer = getlines rest (piece ++ c ∷ []) in if c == 44 then piece ∷ after else longer

-- std::stoi throws where there is no number.
parse_all : (Text → Option ℤ) → List Text → Outcome (List ℤ)
parse_all stoi [] = returned []
parse_all stoi (shard ∷ shards) = elim (stoi shard) [
  | none ↦ thrown
  | some n ↦ parse_all stoi shards >>= (λ ns. returned (n ∷ ns))
]

module _ (lib : Numbers) (config_data : ConfigData) where
  -- The value at a section and key, or the default.
  nested : Text → Text → Text → Text
  nested section key default_value = get_nested_value (section ∷ key ∷ []) default_value config_data

  -- `get_int(get_nested_value(...))`, called while the mutex is held
  nested_int : Text → Text → ℤ → Outcome ℤ
  unfolding nested
  nested_int section key default_value =
      get_int lib true (nested section key (lib.to_string default_value)) (pos 0) config_data

  nested_bool : Text → Text → Bool → Outcome Bool
  unfolding nested
  nested_bool section key default_value =
      get_bool true (nested section key (show_bool default_value)) false config_data

  unfoldable pub get_node_config : Outcome NodeConfig
  unfolding nested nested_int getlines parse_all
  get_node_config = nested_int (text "node") (text "port") default_node_config.port >>= (λ port.
      parse_all lib.stoi (getlines (nested (text "node") (text "shard_ids") []) [])
      >>= (λ shard_ids.
          nested_int (text "node") (text "replication_factor")
            default_node_config.replication_factor
          >>= (λ replication_factor. returned (record {
            id = nested (text "node") (text "id") default_node_config.id;
            address = nested (text "node") (text "address") default_node_config.address;
            port = port;
            seed_nodes = getlines (nested (text "node") (text "seed_nodes") []) [];
            shard_ids = shard_ids;
            replication_factor = replication_factor;
          }))))

  unfoldable pub get_index_config : Outcome IndexConfig
  unfolding nested nested_int nested_bool
  get_index_config =
      nested_int (text "index") (text "dimension") default_index_config.dimension >>= (λ dimension.
        nested_bool (text "index") (text "auto_save") default_index_config.auto_save
        >>= (λ auto_save.
            nested_int (text "index") (text "save_interval_seconds")
              default_index_config.save_interval_seconds
            >>= (λ save_interval_seconds. returned (record {
              dimension = dimension;
              index_type = nested (text "index") (text "type") default_index_config.index_type;
              parameters = [];
              storage_path =
                  nested (text "index") (text "storage_path") default_index_config.storage_path;
              auto_save = auto_save;
              save_interval_seconds = save_interval_seconds;
            }))))

  unfoldable pub get_performance_config : Outcome PerformanceConfig
  unfolding nested nested_int nested_bool
  get_performance_config =
      let d = default_performance_config in
      let section = text "performance" in
      nested_int section (text "batch_size") d.batch_size >>= (λ batch_size.
        nested_int section (text "max_concurrent_loads") d.max_concurrent_loads
        >>= (λ max_concurrent_loads.
            nested_int section (text "max_concurrent_queries") d.max_concurrent_queries
            >>= (λ max_concurrent_queries.
                nested_bool section (text "cache_enabled") d.cache_enabled >>= (λ cache_enabled.
                  nested_int section (text "cache_size") (pos d.cache_size) >>= (λ cache_size.
                    nested_int section (text "query_timeout_ms") d.query_timeout_ms
                    >>= (λ query_timeout_ms.
                        nested_int section (text "load_timeout_ms") d.load_timeout_ms
                        >>= (λ load_timeout_ms. returned (record {
                          batch_size = batch_size;
                          max_concurrent_loads = max_concurrent_loads;
                          max_concurrent_queries = max_concurrent_queries;
                          cache_enabled = cache_enabled;
                          cache_size = to_size cache_size;
                          query_timeout_ms = query_timeout_ms;
                          load_timeout_ms = load_timeout_ms;
                        }))))))))

  unfoldable pub get_network_config : Outcome NetworkConfig
  unfolding nested nested_int nested_bool
  get_network_config =
      let d = default_network_config in
      let section = text "network" in
      nested_int section (text "max_connections") d.max_connections >>= (λ max_connections.
        nested_int section (text "connection_timeout_ms") d.connection_timeout_ms
        >>= (λ connection_timeout_ms.
            nested_int section (text "read_timeout_ms") d.read_timeout_ms >>= (λ read_timeout_ms.
              nested_int section (text "write_timeout_ms") d.write_timeout_ms
              >>= (λ write_timeout_ms.
                  nested_bool section (text "compression_enabled") d.compression_enabled
                  >>= (λ compression_enabled.
                      nested_int section (text "max_retries") d.max_retries >>= (λ max_retries.
                        returned (record {
                          max_connections = max_connections;
                          connection_timeout_ms = connection_timeout_ms;
                          read_timeout_ms = read_timeout_ms;
                          write_timeout_ms = write_timeout_ms;
                          compression_enabled = compression_enabled;
                          max_retries = max_retries;
                          load_balance_strategy =
                              nested section (text "load_balance_strategy") d.load_balance_strategy;
                        })))))))

  unfoldable pub get_storage_config : Outcome StorageConfig
  unfolding nested nested_int nested_bool
  get_storage_config =
      let d = default_storage_config in
      let section = text "storage" in
      nested_int section (text "redis_port") d.redis_port >>= (λ redis_port.
        nested_int section (text "redis_db") d.redis_db >>= (λ redis_db.
          nested_int section (text "local_cache_size") (pos d.local_cache_size)
          >>= (λ local_cache_size.
              nested_bool section (text "compression_enabled") d.compression_enabled
              >>= (λ compression_enabled.
                  nested_bool section (text "encryption_enabled") d.encryption_enabled
                  >>= (λ encryption_enabled. returned (record {
                    storage_type = nested section (text "type") d.storage_type;
                    redis_host = nested section (text "redis_host") d.redis_host;
                    redis_port = redis_port;
                    redis_db = redis_db;
                    local_storage_path =
                        nested section (text "local_storage_path") d.local_storage_path;
                    local_cache_size = to_size local_cache_size;
                    compression_enabled = compression_enabled;
                    encryption_enabled = encryption_enabled;
                    encryption_key = nested section (text "encryption_key") d.encryption_key;
                  }))))))

  unfoldable pub get_logging_config : Outcome LoggingConfig
  unfolding nested nested_int nested_bool
  get_logging_config =
      let d = default_logging_config in
      let section = text "logging" in
      nested_bool section (text "console_output") d.console_output >>= (λ console_output.
        nested_int section (text "max_file_size_mb") (pos d.max_file_size_mb)
        >>= (λ max_file_size_mb. nested_int section (text "max_files") d.max_files >>= (λ max_files.
            returned (record {
              level = nested section (text "level") d.level;
              output_file = nested section (text "output_file") d.output_file;
              console_output = console_output;
              max_file_size_mb = to_size max_file_size_mb;
              max_files = max_files;
              pattern_text = nested section (text "pattern") d.pattern_text;
            }))))
