-- ===== src/LocalStorage/Manage.antt =====
-- src/storage/local_storage.cpp: vectors, batches, indices, metadata, persistence and configuration.
use dann.Prelude.{
  ℕ, ◌+◌, ◌-◌, ◌%◌, max, Bool, true, false, ◌&&◌, Option, none, some, List, [], ◌∷◌, ◌++◌, length,
  ltb, ◌==◌, if◌then◌else◌, size_mod,
}
use dann.Dict.{Text, find, assign, erase, text_key, same_text}
use dann.Types.{Float, Outcome, returned, ◌>>=◌}
use dann.Config.{text}
use dann.LocalStorage.{
  System, no_stats, LocalStorage, validate_key, update_stats, evict_from_cache, get_file_path,
  written, create_directory, write_file, delete_file, set, get, del, serialize_vector,
  deserialize_vector,
}

module _ {W : Type 0} where
  unfoldable pub set_vector_cache : Text → List Float → LocalStorage W → LocalStorage W
  set_vector_cache key vector s = record s { vector_cache = assign key vector s.vector_cache }

  unfoldable pub set_total_vectors : ℕ → LocalStorage W → LocalStorage W
  set_total_vectors n s = record s { stats = record s.stats { total_vectors = n } }

  -- Nothing is loaded.
  unfoldable pub load_from_disk : LocalStorage W → LocalStorage W × Bool
  load_from_disk s = (s, true)

  unfoldable pub set_compression_enabled : Bool → LocalStorage W → LocalStorage W
  set_compression_enabled enabled s = record s { compression_enabled = enabled }

  unfoldable pub set_encryption_enabled : Bool → Text → LocalStorage W → LocalStorage W
  set_encryption_enabled enabled key s = record s {
    encryption_enabled = enabled;
    encryption_key = if length key == 0 then s.encryption_key else key;
  }

  unfoldable pub reset_stats : LocalStorage W → LocalStorage W
  reset_stats s = record s { stats = no_stats }

abbrev pub index_path : Text → Text → Text
index_path data_dir index_name = data_dir ++ text "/indices/" ++ index_name ++ text ".idx"

-- The stems of the entries with the extension ".idx".
unfoldable pub index_stems : List (Text × Text) → List Text
index_stems [] = []
index_stems ((stem, extension) ∷ entries) =
    let rest = index_stems entries in
    if same_text extension (text ".idx") then stem ∷ rest else rest

module _ {W : Type 0} (system : System W) where
  unfoldable pub set_vector : Text → List Float → LocalStorage W → Outcome (LocalStorage W × Bool)
  unfolding validate_key set set_vector_cache set_total_vectors serialize_vector
  set_vector key vector s =
      if validate_key key && ltb 0 (length vector)
      then (set system key (serialize_vector vector) s >>= λ r. returned (
        (if r.1
            then set_total_vectors ((r.0.stats.total_vectors + 1) % size_mod)
                (set_vector_cache key vector r.0)
            else r.0),
        r.1,
      ))
      else returned (s, false)

  -- An empty vector is not kept.
  unfoldable pub keep_vector : Text → LocalStorage W × Text → LocalStorage W × List Float
  unfolding set_vector_cache deserialize_vector
  keep_vector key r =
      if length r.1 == 0
      then (r.0, [])
      else (let vector = deserialize_vector r.1 in
          if length vector == 0 then (r.0, []) else (set_vector_cache key vector r.0, vector))

  unfoldable pub get_vector_by :
      Text → LocalStorage W → Option (List Float) → Outcome (LocalStorage W × List Float)
  unfolding update_stats get keep_vector
  get_vector_by key s (some vector) = returned (update_stats system true false s, vector)
  get_vector_by key s none = get system key s >>= λ r. returned (keep_vector key r)

  unfoldable pub get_vector : Text → LocalStorage W → Outcome (LocalStorage W × List Float)
  unfolding validate_key get_vector_by
  get_vector key s =
      if validate_key key then get_vector_by key s (find key s.vector_cache) else returned (s, [])

  unfoldable pub del_vector : Text → LocalStorage W → LocalStorage W × Bool
  unfolding del set_total_vectors
  del_vector key s =
      let r = del system key s in
      if r.1
      then (
        set_total_vectors
            (if ltb 0 r.0.stats.total_vectors
              then r.0.stats.total_vectors - 1
              else r.0.stats.total_vectors)
            (record r.0 { vector_cache = erase key r.0.vector_cache }),
        true,
      )
      else r

  -- All are tried; `all_success` is what is returned if the rest succeeds.
  unfoldable pub set_batch :
      List (Text × Text) → Bool → LocalStorage W → Outcome (LocalStorage W × Bool)
  unfolding set
  set_batch [] all_success s = returned (s, all_success)
  set_batch ((key, value) ∷ key_values) all_success s =
      set system key value s >>= λ r. set_batch key_values (if r.1 then all_success else false) r.0

  unfoldable pub get_batch : List Text → LocalStorage W → Outcome (LocalStorage W × List Text)
  unfolding get
  get_batch [] s = returned (s, [])
  get_batch (key ∷ keys) s =
      get system key s >>= λ r. get_batch keys r.0 >>= λ q. returned (q.0, r.1 ∷ q.1)

  unfoldable pub save_index : Text → Text → LocalStorage W → LocalStorage W × Bool
  unfolding written
  save_index index_name index_data s =
      written system s (system.write (index_path s.data_dir index_name) index_data s.disk)

  unfoldable pub load_index : Text → LocalStorage W → LocalStorage W × Text
  unfolding update_stats
  load_index index_name s = elim (system.read (index_path s.data_dir index_name) s.disk) [
    | none ↦ (s, [])
    | some index_data ↦ (update_stats system false true s, index_data)
  ]

  unfoldable pub delete_index : Text → LocalStorage W → LocalStorage W × Bool
  unfolding delete_file
  delete_index index_name s = delete_file system (index_path s.data_dir index_name) s

  unfoldable pub list_indices : LocalStorage W → List Text
  unfolding index_stems
  list_indices s = elim (system.entries (s.data_dir ++ text "/indices") s.disk) [
    | none ↦ []
    | some entries ↦ index_stems entries
  ]

  unfoldable pub set_metadata : Text → Text → LocalStorage W → Outcome (LocalStorage W × Bool)
  unfolding set
  set_metadata key metadata s = set system (text "metadata:" ++ key) metadata s

  unfoldable pub get_metadata : Text → LocalStorage W → Outcome (LocalStorage W × Text)
  unfolding get
  get_metadata key s = get system (text "metadata:" ++ key) s

  unfoldable pub write_all : List (Text × Text) → Bool → LocalStorage W → LocalStorage W × Bool
  unfolding write_file get_file_path
  write_all [] all_success s = (s, all_success)
  write_all ((key, value) ∷ cache) all_success s =
      let r = write_file system (get_file_path system key s) value s in
      write_all cache (if r.1 then all_success else false) r.0

  unfoldable pub flush_to_disk : LocalStorage W → LocalStorage W × Bool
  unfolding write_all
  flush_to_disk s = write_all s.memory_cache true s

  unfoldable pub compact : LocalStorage W → LocalStorage W × Bool
  unfolding flush_to_disk
  compact s = flush_to_disk s

  unfoldable pub cleanup : LocalStorage W → LocalStorage W × Bool
  unfolding flush_to_disk
  cleanup s = (record (flush_to_disk s).0 { memory_cache = []; vector_cache = [] }, true)

  -- A data directory that is there already counts as a failure.
  unfoldable pub initialize : LocalStorage W → LocalStorage W × Bool
  unfolding create_directory load_from_disk
  initialize s =
      let r = create_directory system s.data_dir s in
      let vectors = (create_directory system (r.0.data_dir ++ text "/vectors") r.0).0 in
      let indices = (create_directory system (vectors.data_dir ++ text "/indices") vectors).0 in
      let metadata = (create_directory system (indices.data_dir ++ text "/metadata") indices).0 in
      if r.1 then ((load_from_disk metadata).0, true) else (r.0, false)

  abbrev copied : LocalStorage W → W × Bool → LocalStorage W × Bool
  copied s r = (record s { disk = r.0 }, r.1)

  unfoldable pub backup : Text → LocalStorage W → LocalStorage W × Bool
  unfolding create_directory
  backup backup_path s =
      let t = (create_directory system backup_path s).0 in
      copied t (system.copy t.data_dir backup_path t.disk)

  unfoldable pub restore : Text → LocalStorage W → LocalStorage W × Bool
  unfolding cleanup load_from_disk
  restore backup_path s =
      let t = (cleanup s).0 in
      let r = copied t (system.copy backup_path t.data_dir t.disk) in
      if r.1 then load_from_disk r.0 else (r.0, false)

  unfoldable pub set_cache_size : ℕ → LocalStorage W → LocalStorage W
  unfolding evict_from_cache
  set_cache_size cache_size s = evict_from_cache system (record s { cache_size = max 1 cache_size })
