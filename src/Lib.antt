-- ===== src/Lib.antt =====
-- A model of dann, a library for the approximate search of nearest neighbours. Paths are from the
-- repository's root; each file opens with the code that it models.
--
-- The parts of the program and how they work together
--
-- Vectors are rows of floats in one array. src/utils/util.cpp finds the rows nearest to a query with a
-- bounded queue. src/core/clustering.cpp trains centroids by k-means. DistributedIndexIVF of
-- src/core/distributed_index_ivf.cpp trains on a sample, assigns each vector to its nearest centroid,
-- and gives the inverted list of each centroid to a shard, an IndexIVFShard of src/core/ivf_shard.cpp.
-- A search picks the nearest centroids, asks the shards that have some of them for the nearest vectors
-- in their lists, as tasks of the pool of src/core/io_thread_pool.cpp, and merges the answers.
-- VectorIndex of src/core/vector_index.cpp is the other shard, over a faiss index; src/core/index.cpp
-- spreads vectors over shards of either kind. src/utils/config.cpp keeps the configuration of a
-- process, src/utils/metrics.cpp its metrics, src/utils/logger.cpp its log and
-- src/storage/local_storage.cpp values by key; none of them is called by the index, nor is the handler
-- of messages in src/network/message_handler.cpp.
--
-- Around the index stand a bulk loader, src/core/bulk_loader.cpp, which loads requests into a
-- VectorIndex, and the service of src/network/vector_search_service_impl.cpp, whose handlers call an
-- index for the server of src/network/rpc_server.cpp; src/network/rpc_client.cpp sends requests with
-- retries, and src/main.cpp reads the arguments. src/core/node_manager.cpp keeps the nodes of a cluster,
-- src/core/query_router.cpp picks one of them in turn, and src/storage/redis_client.cpp sends commands
-- to a Redis server. The build leaves these three, the bulk loader and the RPC client out.
--
-- The files
--
-- - Prelude passes on the libraries' names, with Boolean tests (Tests), lists over native numbers
--   (Lists) and signed integers (Int). Dict is std::unordered_map as a list of entries.
-- - Types: include/dann/types.h. Ranking is std::priority_queue and std::sort, its children the laws
--   of both and what a bounded search promises (Nearest), independently of how ties are broken.
-- - Util: util.cpp (find_closest, find_closest_k, find_closest_k_with_distance), with Nearest and
--   Closest for the theorems.
-- - IvfShard: ivf_shard.cpp (add_posting, add_postings, search), with Search and Postings.
-- - Clustering: clustering.cpp (split_clusters), with Largest, Split and Balance; Clustering/Train has
--   Clustering::train, with Start and Rounds.
-- - DistributedIvf: the state and the constructors of DistributedIndexIVF; Numbers (get_nlist,
--   determine_nprobe), Sample (sample_training_vectors), Build (build_index, find_closest_optimized,
--   with Counting, Buckets, Nearest, Places and Few), Query (search, with Groups and Found).
-- - Index: src/core/index.cpp with its shards as the interface of include/dann/index_shard.h; Routes
--   (which vectors go to which shard) and Merged (the merge of the results).
-- - VectorIndex: vector_index.cpp over a faiss index; Bulk (what the batches add) and Replay (the log of
--   operations against what the index holds).
-- - LocalStorage: the keys, the cache and the disk of local_storage.cpp; Bytes (vectors as bytes), Manage
--   (vectors, batches, indices, persistence), with Bare and Reached for the theorems.
-- - Logger: the state and the setters of logger.cpp; Format (the pattern), Rotating (the file and its
--   rotation), Writing (log), with Rotation (which files are kept) and Counts (the statistics).
-- - MessageHandler: the text of the messages of src/network/message_handler.cpp, with Digits (the
--   numbers in it), Handling (handlers, queue and metrics), RoundTrip and Counted (the counters).
-- - Config: the records and setters of config.cpp; Defaults, Sections (the getters of the records),
--   Validation, Values (single values), Env (environment variables), Lists (lists,
--   sections), with Access.
-- - Metrics: the updates of metrics.cpp; Reading (the getters), Labels, Snapshots, Exports, with
--   Updates and Samples.
-- - IndexFactory: the shards by the name of their type, of src/core/index_factory.cpp.
-- - ThreadPool: include/dann/io_thread_pool.h and src/core/io_thread_pool.cpp as a step relation, with
--   Runs, and Progress, which adds the condition variable.
-- - BulkLoader: bulk_loader.cpp over VectorIndex, with Loads; Averages has the counters and averages that
--   it shares with the router and the RPC files.
-- - NodeManager: node_manager.cpp, with Keys and Health. QueryRouter: query_router.cpp, with Turns.
-- - SearchService: vector_search_service_impl.cpp over an index as an interface, whose operations
--   include/dann/index.h does not declare, with Adding. RpcServer: rpc_server.cpp, with Requests. RpcClient: rpc_client.cpp,
--   with Retries.
-- - RedisClient: redis_client.cpp over the hiredis library; Commands (the text of each command), with
--   Reached and Sent.
-- - Startup: the arguments of src/main.cpp, with Arguments.
-- - Examples: runs at concrete inputs.
--
-- How the code is rendered
--
-- State is passed explicitly: an operation is a function from the state to the state. An exception and
-- undefined behaviour (a read out of bounds, top on an empty queue, a failing assertion, a second lock
-- of a mutex, a per cent sign in a text that hiredis takes as a format) are values of Outcome, or `none` where there is only one of them. A float is its bit
-- pattern; the distances are squared, so not negative, and for them the order of the patterns is the
-- order of the floats. The arithmetic on floats and doubles, faiss::fvec_L2sqr, faiss::knn_L2sqr, the
-- shuffle, the random draws, the clocks, std::to_string, std::stoi and std::getenv are parameters;
-- where a theorem relies on one of them it says on what. Vectors have fewer elements than a size_t
-- counts, and the numbers of rows, lists and probes fit an int. Iteration over an unordered_map takes
-- the entries in the order of the list. The searches of util.cpp are called with at least n rows: rows
-- past the end of a shorter array, which the code would read out of bounds, are short ones here. Whether
-- a call of std::filesystem in a rotation of the log is refused is a parameter.
--
-- Bounds and recursion
--
-- Nearly every loop of the source that is modelled runs over a list or a counter, so the functions
-- are structurally recursive and need no fuel. The loop of add_vectors_bulk gets as many rounds as
-- there are ids, as each batch has one at least, and that of the eviction as many as there are
-- entries; a 64-bit number has at most the 16 hexadecimal digits for which there are rounds. The
-- redo and iteration loops of the training count down from nredo and niter. The search of
-- split_clusters for the largest cluster runs once over the counts.
--
-- What is not modelled
--
-- The futures of a search are run in order: the tasks write nothing that they share. Log lines are
-- left out. Of the configuration to_json is not modelled. The local storage has its files as a
-- parameter; of the logger the formatted calls are left out, whose bodies are not in the repository; a
-- round of a thread of the message handler is one step. IVFIndex of src/core/ivf_index.cpp, a template
-- whose searches have no bodies, is left out. The headers of the bulk loader, the node manager, the
-- query router and the Redis client are not in the repository: their state has the fields that the code
-- names, and their functions that return a constant are left out. gRPC, the generated code and hiredis
-- are parameters; of src/main.cpp run_demo is left out, which prints and waits for a key.
pub mod Prelude
pub mod Dict
pub mod Ranking
pub mod Types
pub mod Util
pub mod IvfShard
pub mod Averages
pub mod BulkLoader
pub mod Clustering
pub mod DistributedIvf
pub mod Index
pub mod IndexFactory
pub mod NodeManager
pub mod QueryRouter
pub mod RedisClient
pub mod RpcClient
pub mod RpcServer
pub mod SearchService
pub mod Startup
pub mod VectorIndex
pub mod LocalStorage
pub mod Logger
pub mod MessageHandler
pub mod Metrics
pub mod ThreadPool
pub mod Config
pub mod Examples
