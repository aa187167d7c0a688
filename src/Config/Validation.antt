-- ===== src/Config/Validation.antt =====
-- The validation of a configuration, and its first state.
use dann.Prelude.{
  Bool, true, false, not, ◌&&◌, List, [], ◌∷◌, ◌++◌, leb, length, ◌==◌, ℤ, to_size, not_positive,
}
use dann.Dict.{Text, text_key}
use dann.Types.{Outcome, returned, ◌>>=◌}
use dann.Config.{
  Numbers, ConfigData, text, NodeConfig, IndexConfig, PerformanceConfig, NetworkConfig,
  StorageConfig, LoggingConfig, set_node_config, set_index_config, set_performance_config,
  set_network_config, set_storage_config, set_logging_config,
}
use dann.Config.Defaults.{
  default_node_config, default_index_config, default_performance_config, default_network_config,
  default_storage_config, default_logging_config,
}
use dann.Config.Sections.{
  get_node_config, get_index_config, get_performance_config, get_network_config, get_storage_config,
  get_logging_config,
}

abbrev is_empty : Text → Bool
is_empty [] = true
is_empty (c ∷ rest) = false

abbrev is_positive : ℤ → Bool
is_positive n = not (not_positive n)

unfoldable pub validate_node_config : NodeConfig → Bool
validate_node_config c = not (is_empty c.id) && is_positive c.port && leb (to_size c.port) 65535

unfoldable pub validate_index_config : IndexConfig → Bool
validate_index_config c = is_positive c.dimension && not (is_empty c.index_type)

unfoldable pub validate_performance_config : PerformanceConfig → Bool
validate_performance_config c =
    is_positive c.batch_size
    && is_positive c.max_concurrent_loads
    && is_positive c.max_concurrent_queries

unfoldable pub validate_network_config : NetworkConfig → Bool
validate_network_config c = is_positive c.max_connections && is_positive c.connection_timeout_ms

unfoldable pub validate_storage_config : StorageConfig → Bool
validate_storage_config c = not (is_empty c.storage_type)

unfoldable pub validate_logging_config : LoggingConfig → Bool
validate_logging_config c = not (is_empty c.level)

abbrev error_unless : Bool → Text → List Text
error_unless true message = []
error_unless false message = message ∷ []

module _ (lib : Numbers) (config_data : ConfigData) where
  unfoldable pub get_validation_errors : Outcome (List Text)
  unfolding get_node_config
  get_validation_errors = get_node_config lib config_data >>= (λ node.
      get_index_config lib config_data >>= (λ index.
        get_performance_config lib config_data >>= (λ perf.
          get_network_config lib config_data >>= (λ network.
            get_storage_config lib config_data >>= (λ storage.
              get_logging_config lib config_data >>= (λ logging. returned (
                error_unless (validate_node_config node) (text "Invalid node configuration")
                ++ error_unless (validate_index_config index) (text "Invalid index configuration")
                ++ error_unless (validate_performance_config perf)
                    (text "Invalid performance configuration")
                ++ error_unless (validate_network_config network)
                    (text "Invalid network configuration")
                ++ error_unless (validate_storage_config storage)
                    (text "Invalid storage configuration")
                ++ error_unless (validate_logging_config logging)
                    (text "Invalid logging configuration"))))))))

  unfoldable pub validate : Outcome Bool
  unfolding get_validation_errors
  validate = get_validation_errors >>= (λ errors. returned (length errors == 0))

-- What the constructor does.
unfoldable pub set_default_configurations : Numbers → ConfigData → ConfigData
set_default_configurations lib config_data = set_logging_config lib default_logging_config (
    set_storage_config lib default_storage_config (
      set_network_config lib default_network_config (
        set_performance_config lib default_performance_config (
          set_index_config lib default_index_config
            (set_node_config lib default_node_config config_data)))))
