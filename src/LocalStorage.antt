-- ===== src/LocalStorage.antt =====
-- src/storage/local_storage.cpp and include/dann/local_storage.h: a store of values by key, with a cache
-- in front of the disk. A call that locks a std::mutex which it holds is undefined.
pub mod Bytes
pub mod Manage
pub mod Bare
pub mod Reached
use dann.Prelude.{
  ℕ, zero, suc, ◌+◌, ◌-◌, ◌%◌, max, Bool, true, false, not, ◌&&◌, ◌||◌, Option, none, some, List,
  [], ◌∷◌, ◌++◌, take, drop, length, ltb, ◌==◌, if◌then◌else◌, size_mod,
}
use dann.Dict.{Text, find, assign, erase, text_key}
use dann.Types.{Float, Outcome, returned, undefined, ◌>>=◌}
use dann.Metrics.{Double}
use dann.Config.{text}
unfoldable pub use Bytes.{serialize_vector, deserialize_vector}
use Bytes.{hex_of}

-- The file system with states in W, MD5, the division of two counts, and the place of `begin()` in an
-- unordered map. A call that may throw has no result when it does; `open_write` and `read` have none
-- when the file cannot be opened. `write` says whether the stream is good, `create_directories` whether
-- it has made a directory, `remove` whether there was a file, and
-- `copy` whether it has come to its end without an exception.
pub record System (W : Type 0) : Type 0 where
  pub create_directories : Text → W → Option (W × Bool)
  pub parent_path : Text → Text
  pub write : Text → Text → W → Option (W × Bool)
  pub read : Text → W → Option Text
  pub remove : Text → W → Option (W × Bool)
  pub copy : Text → Text → W → W × Bool
  -- the stem and the extension of each entry
  pub entries : Text → W → Option (List (Text × Text))
  pub md5 : Text → List ℕ
  pub ratio : ℕ → ℕ → Double
  pub begin : List (Text × Text) → ℕ

pub record StorageStats : Type 0 where
  pub total_keys : ℕ
  pub total_vectors : ℕ
  pub total_size_bytes : ℕ
  pub cache_hits : ℕ
  pub cache_misses : ℕ
  pub cache_hit_ratio : Double
  pub disk_reads : ℕ
  pub disk_writes : ℕ

abbrev pub no_stats : StorageStats
no_stats = record {
  total_keys = 0;
  total_vectors = 0;
  total_size_bytes = 0;
  cache_hits = 0;
  cache_misses = 0;
  cache_hit_ratio = 0;
  disk_reads = 0;
  disk_writes = 0;
}

-- The object together with the disk.
pub record LocalStorage (W : Type 0) : Type 0 where
  pub disk : W
  pub data_dir : Text
  pub cache_size : ℕ
  pub compression_enabled : Bool
  pub encryption_enabled : Bool
  pub encryption_key : Text
  pub memory_cache : List (Text × Text)
  pub vector_cache : List (Text × List Float)
  pub stats : StorageStats

unfoldable pub new_local_storage : {W : Type 0} → Text → W → LocalStorage W
new_local_storage data_dir disk = record {
  disk = disk;
  data_dir = data_dir;
  cache_size = 1000;
  compression_enabled = false;
  encryption_enabled = false;
  encryption_key = [];
  memory_cache = [];
  vector_cache = [];
  stats = no_stats;
}

-- '/', '\\' and '\0'
unfoldable pub valid_characters : Text → Bool
valid_characters [] = true
valid_characters (c ∷ key) = not (c == 47) && not (c == 92) && not (c == 0) && valid_characters key

unfoldable pub validate_key : Text → Bool
unfolding valid_characters
validate_key key = if length key == 0 || ltb 256 (length key) then false else valid_characters key

unfoldable pub compress_data : Text → Text
compress_data bytes = bytes

unfoldable pub decompress_data : Text → Text
decompress_data bytes = bytes

unfoldable pub encrypt_data : Text → Text
encrypt_data bytes = bytes

unfoldable pub decrypt_data : Text → Text
decrypt_data bytes = bytes

module _ {W : Type 0} where
  unfoldable pub encoded : LocalStorage W → Text → Text
  unfolding compress_data encrypt_data
  encoded s value =
      let packed = if s.compression_enabled then compress_data value else value in
      if s.encryption_enabled then encrypt_data packed else packed

  unfoldable pub decoded : LocalStorage W → Text → Text
  unfolding decompress_data decrypt_data
  decoded s value =
      let packed = if s.encryption_enabled then decrypt_data value else value in
      if s.compression_enabled then decompress_data packed else packed

module _ {W : Type 0} (system : System W) where
  -- The ratio is left alone when the total, which may wrap round, is 0.
  unfoldable pub counted : Bool → Bool → StorageStats → StorageStats
  counted cache_hit disk_operation stats =
      let hits = if cache_hit then (stats.cache_hits + 1) % size_mod else stats.cache_hits in
      let misses = if cache_hit then stats.cache_misses else (stats.cache_misses + 1) % size_mod in
      let total = (hits + misses) % size_mod in
      record stats {
        cache_hits = hits;
        cache_misses = misses;
        disk_reads = if disk_operation then (stats.disk_reads + 1) % size_mod else stats.disk_reads;
        cache_hit_ratio = if ltb 0 total then system.ratio hits total else stats.cache_hit_ratio;
      }

  unfoldable pub update_stats : Bool → Bool → LocalStorage W → LocalStorage W
  unfolding counted
  update_stats cache_hit disk_operation s = record s {
    stats = counted cache_hit disk_operation s.stats;
  }

  -- The loop that erases at `begin()` until the size is reached; there are as many rounds as entries.
  unfoldable pub evict : ℕ → ℕ → List (Text × Text) → List (Text × Text)
  evict zero size cache = cache
  evict (suc rounds) size cache =
      let i = system.begin cache in
      let rest = evict rounds size (take i cache ++ drop (suc i) cache) in
      if ltb size (length cache) then rest else cache

  unfoldable pub evict_from_cache : LocalStorage W → LocalStorage W
  unfolding evict
  evict_from_cache s = record s {
    memory_cache = evict (length s.memory_cache) s.cache_size s.memory_cache;
  }

  -- `held` says whether the caller has locked storage_mutex_, which is locked here.
  unfoldable pub add_to_cache : Bool → Text → Text → LocalStorage W → Outcome (LocalStorage W)
  unfolding evict_from_cache
  add_to_cache held key value s =
      if held
      then undefined
      else returned (evict_from_cache (record s { memory_cache = assign key value s.memory_cache }))

  unfoldable pub get_file_path : Text → LocalStorage W → Text
  unfolding hex_of
  get_file_path key s =
      let hash = hex_of (system.md5 key) in
      s.data_dir ++ text "/vectors/" ++ take 2 hash ++ text "/" ++ hash ++ text ".dat"

  -- What follows an opened file: the statistics, as for a cache miss.
  unfoldable pub written : LocalStorage W → Option (W × Bool) → LocalStorage W × Bool
  unfolding update_stats
  written s none = (s, false)
  written s (some (w, good)) = (update_stats false false (record s { disk = w }), good)

  unfoldable pub create_directory : Text → LocalStorage W → LocalStorage W × Bool
  create_directory path s = elim (system.create_directories path s.disk) [
    | none ↦ (s, false)
    | some (w, made) ↦ (record s { disk = w }, made)
  ]

  unfoldable pub write_file : Text → Text → LocalStorage W → LocalStorage W × Bool
  unfolding written create_directory
  write_file path bytes s =
      let t = (create_directory (system.parent_path path) s).0 in
      written t (system.write path bytes t.disk)

  unfoldable pub read_file : Text → LocalStorage W → LocalStorage W × Text
  unfolding update_stats
  read_file path s = elim (system.read path s.disk) [
    | none ↦ (s, [])
    | some bytes ↦ (update_stats false true s, bytes)
  ]

  unfoldable pub delete_file : Text → LocalStorage W → LocalStorage W × Bool
  delete_file path s = elim (system.remove path s.disk) [
    | none ↦ (s, false)
    | some (w, removed) ↦ (record s { disk = w }, removed)
  ]

  -- The cache is filled under the lock.
  unfoldable pub set : Text → Text → LocalStorage W → Outcome (LocalStorage W × Bool)
  unfolding validate_key encoded add_to_cache update_stats
  set key value s =
      if validate_key key
      then (add_to_cache true key (encoded s value) s >>= λ t.
          returned (update_stats true false t, true))
      else returned (s, false)

  unfoldable pub get_from_disk : Text → LocalStorage W → Outcome (LocalStorage W × Text)
  unfolding read_file get_file_path decoded add_to_cache
  get_from_disk key s =
      let r = read_file (get_file_path key s) s in
      if length r.1 == 0
      then returned (r.0, [])
      else add_to_cache true key (decoded s r.1) r.0 >>= λ t. returned (t, decoded s r.1)

  unfoldable pub get_by : Text → LocalStorage W → Option Text → Outcome (LocalStorage W × Text)
  unfolding get_from_disk update_stats decoded
  get_by key s none = get_from_disk key (update_stats false true s)
  get_by key s (some value) = returned (update_stats true false s, decoded s value)

  unfoldable pub get : Text → LocalStorage W → Outcome (LocalStorage W × Text)
  unfolding validate_key get_by
  get key s = if validate_key key then get_by key s (find key s.memory_cache) else returned (s, [])

  unfoldable pub del : Text → LocalStorage W → LocalStorage W × Bool
  unfolding validate_key delete_file get_file_path update_stats
  del key s =
      let r = delete_file (get_file_path key s) (record s {
        memory_cache = erase key s.memory_cache;
        vector_cache = erase key s.vector_cache;
      }) in
      if validate_key key then (update_stats false false r.0, r.1) else (s, false)

  unfoldable pub exists : Text → LocalStorage W → Bool
  unfolding validate_key get_file_path
  exists key s =
      if validate_key key
      then elim (find key s.memory_cache) [
        | some value ↦ true
        | none ↦ elim (system.read (get_file_path key s) s.disk) [
          | none ↦ false
          | some bytes ↦ true
        ]
      ]
      else false
