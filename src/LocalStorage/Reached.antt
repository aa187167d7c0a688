-- ===== src/LocalStorage/Reached.antt =====
-- What all orders of calls of src/storage/local_storage.cpp leave in the caches.
use dann.Prelude.{ℕ, max, ◌++◌, ◌≡◌, refl, subst, Bool, true, false, List, [], if◌then◌else◌}
use dann.Config.{text}
use dann.Dict.{Text, text_key}
use dann.Types.{Float, Outcome, returned, undefined}
use dann.LocalStorage.{
  System, LocalStorage, new_local_storage, validate_key, add_to_cache, set, get, del,
}
use dann.LocalStorage.Manage.{
  set_compression_enabled, set_encryption_enabled, reset_stats, set_vector, get_vector, del_vector,
  set_batch, get_batch, save_index, index_path, load_index, delete_index, set_metadata,
  get_metadata, flush_to_disk, cleanup, initialize, backup, restore, set_cache_size,
}
use dann.LocalStorage.Bare.{
  IsBare, BareOutcome, cleanup-IsBare, create_directory-IsBare, del-IsBare, del_vector-IsBare,
  delete_file-IsBare, disk-IsBare, evict_from_cache-IsBare, flush_to_disk-IsBare, get-IsBare,
  get_batch-IsBare, get_vector-IsBare, initialize-IsBare, load_index-IsBare, restore-IsBare,
  set-IsBare, set_batch-IsBare, set_vector-IsBare, written-IsBare,
}

module _ {W : Type 0} (system : System W) where
  -- A call that has a result. Calls that change nothing are left out.
  pub data Step : LocalStorage W → LocalStorage W → Type 0 where
    initialized : {s : LocalStorage W} → Step s (initialize system s).0
    cleaned : {s : LocalStorage W} → Step s (cleanup system s).0
    was_set :
        {s : LocalStorage W} (key value : Text) (t : LocalStorage W) (ok : Bool)
        → set system key value s ≡ returned (t, ok)
        → Step s t
    was_read :
        {s : LocalStorage W} (key : Text) (t : LocalStorage W) (value : Text)
        → get system key s ≡ returned (t, value)
        → Step s t
    deleted : {s : LocalStorage W} (key : Text) → Step s (del system key s).0
    vector_set :
        {s : LocalStorage W} (key : Text) (vector : List Float) (t : LocalStorage W) (ok : Bool)
        → set_vector system key vector s ≡ returned (t, ok)
        → Step s t
    vector_read :
        {s : LocalStorage W} (key : Text) (t : LocalStorage W) (vector : List Float)
        → get_vector system key s ≡ returned (t, vector)
        → Step s t
    vector_deleted : {s : LocalStorage W} (key : Text) → Step s (del_vector system key s).0
    batch_set :
        {s : LocalStorage W} (key_values : List (Text × Text)) (t : LocalStorage W) (ok : Bool)
        → set_batch system key_values true s ≡ returned (t, ok)
        → Step s t
    batch_read :
        {s : LocalStorage W} (keys : List Text) (t : LocalStorage W) (values : List Text)
        → get_batch system keys s ≡ returned (t, values)
        → Step s t
    index_saved :
        {s : LocalStorage W} (index_name index_data : Text)
        → Step s (save_index system index_name index_data s).0
    index_loaded :
        {s : LocalStorage W} (index_name : Text) → Step s (load_index system index_name s).0
    index_deleted :
        {s : LocalStorage W} (index_name : Text) → Step s (delete_index system index_name s).0
    metadata_set :
        {s : LocalStorage W} (key metadata : Text) (t : LocalStorage W) (ok : Bool)
        → set_metadata system key metadata s ≡ returned (t, ok)
        → Step s t
    metadata_read :
        {s : LocalStorage W} (key : Text) (t : LocalStorage W) (metadata : Text)
        → get_metadata system key s ≡ returned (t, metadata)
        → Step s t
    flushed : {s : LocalStorage W} → Step s (flush_to_disk system s).0
    backed_up : {s : LocalStorage W} (path : Text) → Step s (backup system path s).0
    restored : {s : LocalStorage W} (path : Text) → Step s (restore system path s).0
    resized : {s : LocalStorage W} (cache_size : ℕ) → Step s (set_cache_size system cache_size s)
    compressed : {s : LocalStorage W} (enabled : Bool) → Step s (set_compression_enabled enabled s)
    encrypted :
        {s : LocalStorage W} (enabled : Bool) (key : Text)
        → Step s (set_encryption_enabled enabled key s)
    stats_reset : {s : LocalStorage W} → Step s (reset_stats s)

  pub data Reach : LocalStorage W → Type 0 where
    made : (data_dir : Text) (disk : W) → Reach (new_local_storage data_dir disk)
    next : {s t : LocalStorage W} → Reach s → Step s t → Reach t

  left-IsBare :
      {A : Type 0} (P : A → Type 0) (o : Outcome (LocalStorage W × A)) (t : LocalStorage W) (a : A)
      → o ≡ returned (t, a)
      → BareOutcome system P o
      → IsBare t × P a
  unfolding BareOutcome
  left-IsBare P o t a e h = subst (BareOutcome system P) e h

  Step-IsBare : (s t : LocalStorage W) → IsBare s → Step s t → IsBare t
  unfolding set_metadata get_metadata save_index load_index delete_index backup set_cache_size
      set_compression_enabled set_encryption_enabled reset_stats
  Step-IsBare s _ h initialized = initialize-IsBare system s h
  Step-IsBare s _ h cleaned = cleanup-IsBare system s h
  Step-IsBare s t h (was_set key value _ ok e) =
      (left-IsBare _ _ t ok e (set-IsBare system key value s h)).0
  Step-IsBare s t h (was_read key _ value e) =
      (left-IsBare _ _ t value e (get-IsBare system key s h)).0
  Step-IsBare s _ h (deleted key) = del-IsBare system key s h
  Step-IsBare s t h (vector_set key vector _ ok e) =
      (left-IsBare _ _ t ok e (set_vector-IsBare system key vector s h)).0
  Step-IsBare s t h (vector_read key _ vector e) =
      (left-IsBare _ _ t vector e (get_vector-IsBare system key s h)).0
  Step-IsBare s _ h (vector_deleted key) = del_vector-IsBare system key s h
  Step-IsBare s t h (batch_set key_values _ ok e) =
      (left-IsBare _ _ t ok e (set_batch-IsBare system key_values true s h)).0
  Step-IsBare s t h (batch_read keys _ values e) =
      (left-IsBare _ _ t values e (get_batch-IsBare system keys s h)).0
  Step-IsBare s _ h (index_saved index_name index_data) =
      written-IsBare system s (system.write (index_path s.data_dir index_name) index_data s.disk) h
  Step-IsBare s _ h (index_loaded index_name) = load_index-IsBare system index_name s h
  Step-IsBare s _ h (index_deleted index_name) = delete_file-IsBare system _ s h
  Step-IsBare s t h (metadata_set key metadata _ ok e) =
      (left-IsBare _ _ t ok e (set-IsBare system (text "metadata:" ++ key) metadata s h)).0
  Step-IsBare s t h (metadata_read key _ metadata e) =
      (left-IsBare _ _ t metadata e (get-IsBare system (text "metadata:" ++ key) s h)).0
  Step-IsBare s _ h flushed = flush_to_disk-IsBare system s h
  Step-IsBare s _ h (backed_up path) =
      disk-IsBare system _ _ (create_directory-IsBare system path s h)
  Step-IsBare s _ h (restored path) = restore-IsBare system path s h
  Step-IsBare s _ h (resized cache_size) =
      evict_from_cache-IsBare system (record s { cache_size = max 1 cache_size })
        (record {
          no_values = h.no_values;
          no_vectors = h.no_vectors;
          none_counted = h.none_counted;
          none_written = h.none_written;
        })
  Step-IsBare s _ h (compressed enabled) = record {
    no_values = h.no_values;
    no_vectors = h.no_vectors;
    none_counted = h.none_counted;
    none_written = h.none_written;
  }
  Step-IsBare s _ h (encrypted enabled key) = record {
    no_values = h.no_values;
    no_vectors = h.no_vectors;
    none_counted = h.none_counted;
    none_written = h.none_written;
  }
  Step-IsBare s _ h stats_reset = record {
    no_values = h.no_values;
    no_vectors = h.no_vectors;
    none_counted = refl;
    none_written = refl;
  }

  Reach-IsBare : (s : LocalStorage W) → Reach s → IsBare s
  unfolding new_local_storage
  Reach-IsBare _ (made data_dir disk) = record {
    no_values = refl;
    no_vectors = refl;
    none_counted = refl;
    none_written = refl;
  }
  Reach-IsBare t (next {s = s} r step) = Step-IsBare s t (Reach-IsBare s r) step

  -- In every order of calls that have a result: nothing is cached, and no write is counted; set has no
  -- result for a key that is accepted and refuses every other; set_vector, when it has a result, has
  -- refused; get and get_vector, when they have a result, return the empty value; and after each of the
  -- three nothing is cached either.
  pub Reach-nothing_stored :
      (s : LocalStorage W) (key value : Text) (vector : List Float)
      → Reach s
      → IsBare s
        × (set system key value s ≡ (if validate_key key then undefined else returned (s, false)))
        × BareOutcome system (λ ok. ok ≡ false) (set_vector system key vector s)
        × BareOutcome system (λ found. found ≡ []) (get system key s)
        × BareOutcome system (λ found. found ≡ []) (get_vector system key s)
  unfolding set add_to_cache
  Reach-nothing_stored s key value vector r =
      let h = Reach-IsBare s r in
      (
        h,
        refl,
        set_vector-IsBare system key vector s h,
        get-IsBare system key s h,
        get_vector-IsBare system key s h,
      )
