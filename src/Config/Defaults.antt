-- ===== src/Config/Defaults.antt =====
-- The default configurations of src/utils/config.cpp.
use dann.Prelude.{true, false, [], pos}
use dann.Dict.{text_key}
use dann.Config.{
  text, NodeConfig, IndexConfig, PerformanceConfig, NetworkConfig, StorageConfig, LoggingConfig,
}

abbrev pub default_node_config : NodeConfig
default_node_config = record {
  id = text "node1";
  address = text "0.0.0.0";
  port = pos 8080;
  seed_nodes = [];
  shard_ids = [];
  replication_factor = pos 3;
}

abbrev pub default_index_config : IndexConfig
default_index_config = record {
  dimension = pos 128;
  index_type = text "IVF";
  parameters = [];
  storage_path = text "./data";
  auto_save = true;
  save_interval_seconds = pos 300;
}

abbrev pub default_performance_config : PerformanceConfig
default_performance_config = record {
  batch_size = pos 1000;
  max_concurrent_loads = pos 4;
  max_concurrent_queries = pos 100;
  cache_enabled = true;
  cache_size = 10000;
  query_timeout_ms = pos 5000;
  load_timeout_ms = pos 30000;
}

abbrev pub default_network_config : NetworkConfig
default_network_config = record {
  max_connections = pos 1000;
  connection_timeout_ms = pos 5000;
  read_timeout_ms = pos 10000;
  write_timeout_ms = pos 10000;
  compression_enabled = false;
  max_retries = pos 3;
  load_balance_strategy = text "round_robin";
}

abbrev pub default_storage_config : StorageConfig
default_storage_config = record {
  storage_type = text "local";
  redis_host = text "localhost";
  redis_port = pos 6379;
  redis_db = pos 0;
  local_storage_path = text "./data";
  local_cache_size = 1000;
  compression_enabled = false;
  encryption_enabled = false;
  encryption_key = [];
}

abbrev pub default_logging_config : LoggingConfig
default_logging_config = record {
  level = text "INFO";
  output_file = text "./logs/dann.log";
  console_output = true;
  max_file_size_mb = 100;
  max_files = pos 5;
  pattern_text = text "[%Y-%m-%d %H:%M:%S] [%l] %v";
}
