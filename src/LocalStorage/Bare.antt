-- ===== src/LocalStorage/Bare.antt =====
-- Each call of src/storage/local_storage.cpp on a store that holds nothing.
use dann.Prelude.{
  ◌-◌, ltb, ◌≡◌, refl, subst, Bool, true, false, Option, none, some, Option-cases, List, [], ◌∷◌,
  length, if_both, inl, inr, if◌then◌else◌, sym, All, ◌==◌,
}
use dann.Dict.{Text, find, erase, text_key}
use dann.Types.{Float, Outcome, returned, undefined, thrown, ◌>>=◌}
use dann.LocalStorage.{
  System, LocalStorage, validate_key, update_stats, evict, evict_from_cache, written, get_file_path,
  serialize_vector, add_to_cache, create_directory, read_file, delete_file, set, get_from_disk,
  get_by, get, del,
}
use dann.LocalStorage.Manage.{
  set_total_vectors, load_from_disk, set_vector, keep_vector, get_vector_by, get_vector, del_vector,
  set_batch, get_batch, index_path, load_index, write_all, flush_to_disk, cleanup, initialize,
  restore,
}

-- Nothing is held, and no write is counted.
pub record IsBare {W : Type 0} (s : LocalStorage W) : Type 0 where
  pub no_values : s.memory_cache ≡ []
  pub no_vectors : s.vector_cache ≡ []
  pub none_counted : s.stats.total_vectors ≡ 0
  pub none_written : s.stats.disk_writes ≡ 0

module _ {W : Type 0} (system : System W) where
  -- A call that has a result leaves nothing behind, and what it returns is the given value.
  unfoldable pub BareOutcome : {A : Type 0} → (A → Type 0) → Outcome (LocalStorage W × A) → Type 0
  BareOutcome P (returned r) = IsBare r.0 × P r.1
  BareOutcome P undefined = Unit
  BareOutcome P thrown = Unit

  bare_bind :
      {A B : Type 0} (P : A → Type 0) (Q : B → Type 0) (o : Outcome (LocalStorage W × A))
      (f : LocalStorage W × A → Outcome (LocalStorage W × B))
      → BareOutcome P o
      → ((t : LocalStorage W) (a : A) → IsBare t → P a → BareOutcome Q (f (t, a)))
      → BareOutcome Q (o >>= f)
  unfolding BareOutcome
  bare_bind P Q (returned (t, a)) f h k = k t a h.0 h.1
  bare_bind P Q undefined f h k = tt
  bare_bind P Q thrown f h k = tt

  pub update_stats-IsBare :
      (cache_hit disk_operation : Bool) (s : LocalStorage W)
      → IsBare s
      → IsBare (update_stats system cache_hit disk_operation s)
  unfolding update_stats
  update_stats-IsBare cache_hit disk_operation s h = record {
    no_values = h.no_values;
    no_vectors = h.no_vectors;
    none_counted = h.none_counted;
    none_written = h.none_written;
  }

  pub disk-IsBare : (w : W) (s : LocalStorage W) → IsBare s → IsBare (record s { disk = w })
  disk-IsBare w s h = record {
    no_values = h.no_values;
    no_vectors = h.no_vectors;
    none_counted = h.none_counted;
    none_written = h.none_written;
  }

  pub create_directory-IsBare :
      (path : Text) (s : LocalStorage W) → IsBare s → IsBare (create_directory system path s).0
  unfolding create_directory
  create_directory-IsBare path s h = elim (Option-cases (system.create_directories path s.disk)) [
    | inl e ↦ rw (e, create_directory) h
    | inr ((w, made), e) ↦ rw (e, create_directory) (disk-IsBare w s h)
  ]

  pub delete_file-IsBare :
      (path : Text) (s : LocalStorage W) → IsBare s → IsBare (delete_file system path s).0
  unfolding delete_file
  delete_file-IsBare path s h = elim (Option-cases (system.remove path s.disk)) [
    | inl e ↦ rw (e, delete_file) h
    | inr ((w, removed), e) ↦ rw (e, delete_file) (disk-IsBare w s h)
  ]

  pub written-IsBare :
      (s : LocalStorage W) (o : Option (W × Bool)) → IsBare s → IsBare (written system s o).0
  unfolding written
  written-IsBare s none h = h
  written-IsBare s (some (w, good)) h =
      update_stats-IsBare false false (record s { disk = w }) (disk-IsBare w s h)

  pub read_file-IsBare :
      (path : Text) (s : LocalStorage W) → IsBare s → IsBare (read_file system path s).0
  unfolding read_file
  read_file-IsBare path s h = elim (Option-cases (system.read path s.disk)) [
    | inl e ↦ rw (e, read_file) h
    | inr (bytes, e) ↦ rw (e, read_file) (update_stats-IsBare false true s h)
  ]

  -- A key that is accepted cannot be set.
  pub set-IsBare :
      (key value : Text) (s : LocalStorage W)
      → IsBare s
      → BareOutcome (λ ok. ok ≡ false) (set system key value s)
  unfolding set add_to_cache BareOutcome
  set-IsBare key value s h =
      if_both (BareOutcome (λ ok. ok ≡ false)) (validate_key key) undefined (returned (s, false)) tt
        (h, refl)

  pub get_from_disk-IsBare :
      (key : Text) (s : LocalStorage W)
      → IsBare s
      → BareOutcome (λ value. value ≡ []) (get_from_disk system key s)
  unfolding get_from_disk add_to_cache BareOutcome
  get_from_disk-IsBare key s h =
      let r = read_file system (get_file_path system key s) s in
      if_both (BareOutcome (λ value. value ≡ [])) (length r.1 == 0) (returned (r.0, [])) undefined
        (read_file-IsBare (get_file_path system key s) s h, refl) tt

  pub get-IsBare :
      (key : Text) (s : LocalStorage W)
      → IsBare s
      → BareOutcome (λ value. value ≡ []) (get system key s)
  unfolding get get_by find BareOutcome
  get-IsBare key s h =
      if_both (BareOutcome (λ value. value ≡ [])) (validate_key key)
        (get_by system key s (find key s.memory_cache)) (returned (s, []))
        (subst (λ cache. BareOutcome (λ value. value ≡ []) (get_by system key s (find key cache)))
          (sym h.no_values)
          (get_from_disk-IsBare key (update_stats system false true s)
            (update_stats-IsBare false true s h)))
        (h, refl)

  pub del-IsBare : (key : Text) (s : LocalStorage W) → IsBare s → IsBare (del system key s).0
  unfolding del erase
  del-IsBare key s h =
      let t : LocalStorage W = record s {
        memory_cache = erase key s.memory_cache;
        vector_cache = erase key s.vector_cache;
      } in
      let bare : IsBare t = record {
        no_values = rw h.no_values refl;
        no_vectors = rw h.no_vectors refl;
        none_counted = h.none_counted;
        none_written = h.none_written;
      } in
      if_both (λ (r : LocalStorage W × Bool). IsBare r.0) (validate_key key) _ (s, false)
        (update_stats-IsBare false false _ (delete_file-IsBare (get_file_path system key s) t bare))
        h

  pub set_vector-IsBare :
      (key : Text) (vector : List Float) (s : LocalStorage W)
      → IsBare s
      → BareOutcome (λ ok. ok ≡ false) (set_vector system key vector s)
  unfolding set_vector BareOutcome
  set_vector-IsBare key vector s h =
      if_both (BareOutcome (λ ok. ok ≡ false)) _ _ (returned (s, false))
        (bare_bind (λ ok. ok ≡ false) (λ ok. ok ≡ false)
          (set system key (serialize_vector vector) s) _
          (set-IsBare key (serialize_vector vector) s h) (λ t ok k e. rw e (k, refl)))
        (h, refl)

  pub get_vector-IsBare :
      (key : Text) (s : LocalStorage W)
      → IsBare s
      → BareOutcome (λ vector. vector ≡ []) (get_vector system key s)
  unfolding get_vector get_vector_by keep_vector find BareOutcome
  get_vector-IsBare key s h =
      if_both (BareOutcome (λ vector. vector ≡ [])) (validate_key key)
        (get_vector_by system key s (find key s.vector_cache)) (returned (s, []))
        (subst
          (λ cache.
            BareOutcome (λ vector. vector ≡ []) (get_vector_by system key s (find key cache)))
          (sym h.no_vectors)
          (bare_bind (λ value. value ≡ []) (λ vector. vector ≡ []) (get system key s) _
            (get-IsBare key s h) (λ t value k e. rw e (k, refl))))
        (h, refl)

  pub del_vector-IsBare :
      (key : Text) (s : LocalStorage W) → IsBare s → IsBare (del_vector system key s).0
  unfolding del_vector set_total_vectors erase
  del_vector-IsBare key s h = go (del system key s) (del-IsBare key s h)
    where
      go :
          (r : LocalStorage W × Bool)
          → IsBare r.0
          → IsBare
              (if r.1
                then (
                  set_total_vectors
                      (if ltb 0 r.0.stats.total_vectors
                        then r.0.stats.total_vectors - 1
                        else r.0.stats.total_vectors)
                      (record r.0 { vector_cache = erase key r.0.vector_cache }),
                  true,
                )
                else r).0
      go (t, true) k = record {
        no_values = k.no_values;
        no_vectors = rw k.no_vectors refl;
        none_counted = rw k.none_counted refl;
        none_written = k.none_written;
      }
      go (t, false) k = k

  pub set_batch-IsBare :
      (key_values : List (Text × Text)) (all_success : Bool) (s : LocalStorage W)
      → IsBare s
      → BareOutcome (λ ok. Unit) (set_batch system key_values all_success s)
  unfolding set_batch BareOutcome
  set_batch-IsBare [] all_success s h = (h, tt)
  set_batch-IsBare ((key, value) ∷ key_values) all_success s h =
      bare_bind (λ ok. ok ≡ false) (λ ok. Unit) (set system key value s) _
        (set-IsBare key value s h)
        (λ t ok k e. set_batch-IsBare key_values (if ok then all_success else false) t k)

  pub get_batch-IsBare :
      (keys : List Text) (s : LocalStorage W)
      → IsBare s
      → BareOutcome (All (λ value. value ≡ [])) (get_batch system keys s)
  unfolding get_batch BareOutcome
  get_batch-IsBare [] s h = (h, tt)
  get_batch-IsBare (key ∷ keys) s h =
      bare_bind (λ value. value ≡ []) (All (λ value. value ≡ [])) (get system key s) _
        (get-IsBare key s h)
        (λ t value k e.
          bare_bind (All (λ v. v ≡ [])) (All (λ v. v ≡ [])) (get_batch system keys t) _
            (get_batch-IsBare keys t k) (λ u values m q. (m, (e, q))))

  pub flush_to_disk-IsBare : (s : LocalStorage W) → IsBare s → IsBare (flush_to_disk system s).0
  unfolding flush_to_disk write_all
  flush_to_disk-IsBare s h =
      subst (λ cache. IsBare (write_all system cache true s).0) (sym h.no_values) h

  pub cleanup-IsBare : (s : LocalStorage W) → IsBare s → IsBare (cleanup system s).0
  unfolding cleanup
  cleanup-IsBare s h =
      let flushed = flush_to_disk-IsBare s h in
      record {
        no_values = refl;
        no_vectors = refl;
        none_counted = flushed.none_counted;
        none_written = flushed.none_written;
      }

  pub initialize-IsBare : (s : LocalStorage W) → IsBare s → IsBare (initialize system s).0
  unfolding initialize load_from_disk
  initialize-IsBare s h =
      let made = create_directory-IsBare s.data_dir s h in
      let vectors = create_directory-IsBare _ _ made in
      let indices = create_directory-IsBare _ _ vectors in
      let metadata = create_directory-IsBare _ _ indices in
      if_both (λ (r : LocalStorage W × Bool). IsBare r.0) _ (_, true) (_, false) metadata made

  pub restore-IsBare :
      (path : Text) (s : LocalStorage W) → IsBare s → IsBare (restore system path s).0
  unfolding restore load_from_disk
  restore-IsBare path s h =
      let cleaned = cleanup-IsBare s h in
      let t = (cleanup system s).0 in
      let copied = system.copy path t.data_dir t.disk in
      let kept = disk-IsBare copied.0 t cleaned in
      if_both (λ (r : LocalStorage W × Bool). IsBare r.0) copied.1
        (record t { disk = copied.0 }, true) (record t { disk = copied.0 }, false) kept kept

  pub evict_from_cache-IsBare : (s : LocalStorage W) → IsBare s → IsBare (evict_from_cache system s)
  unfolding evict_from_cache evict
  evict_from_cache-IsBare s h = record {
    no_values = rw h.no_values refl;
    no_vectors = h.no_vectors;
    none_counted = h.none_counted;
    none_written = h.none_written;
  }

  pub load_index-IsBare :
      (index_name : Text) (s : LocalStorage W)
      → IsBare s
      → IsBare (load_index system index_name s).0
  unfolding load_index
  load_index-IsBare index_name s h =
      elim (Option-cases (system.read (index_path s.data_dir index_name) s.disk)) [
        | inl e ↦ rw (e, load_index) h
        | inr (bytes, e) ↦ rw (e, load_index) (update_stats-IsBare false true s h)
      ]
