-- ===== src/VectorIndex.antt =====
-- src/core/vector_index.cpp and include/dann/vector_index.h: a shard over a faiss index with ids. The
-- faiss library is a record of operations, and the clock's readings are parameters.
pub mod Bulk
pub mod Replay
use dann.Prelude.{
  ℕ, zero, suc, ◌+◌, ◌-◌, ◌*◌, ◌/◌, ◌%◌, min, Bool, true, false, not, ◌&&◌, ◌||◌, Option, none,
  some, List, [], ◌∷◌, ◌++◌, map, take, drop, length, ltb, ◌==◌, if◌then◌else◌, ℤ, pos, negsuc,
  size_mod, to_size, is_negative, not_positive,
}
use dann.Dict.{Text, same_text}
use dann.Types.{
  Float, InternalSearchResult, OperationType, add_op, delete_op, InternalIndexOperation, Outcome,
  returned, thrown, ◌>>=◌,
}
use dann.Config.{text}

-- faiss indexes with states in F and the files of a machine with states in W. `hnsw_flat` takes the
-- dimension, M and efConstruction; both it and `flat_l2` are wrapped in an IndexIDMap2, which
-- `is_id_map2` recognizes. `search` takes the number of queries, the queries and k, and gives labels and
-- distances. `remove_ids` gives the number of vectors that went, or throws, as `read_index` and
-- `write_index` may.
pub record FaissOps (F W : Type 0) : Type 0 where
  pub hnsw_flat : ℕ → ℤ → ℤ → F
  pub flat_l2 : ℕ → F
  pub is_id_map2 : F → Bool
  pub add_with_ids : List Float → List ℤ → F → F
  pub search : ℕ → List Float → ℕ → F → List (ℤ × Float)
  pub remove_ids : ℤ → F → Option (F × ℕ)
  pub ntotal : F → ℕ
  pub write_index : F → Text → W → Option W
  pub read_index : Text → W → Option F

pub record VectorIndex (F : Type 0) : Type 0 where
  pub index : F
  pub dimension : ℕ
  pub index_type : Text
  pub hnsw_m : ℤ
  pub hnsw_ef_construction : ℤ
  pub version : ℕ
  pub pending_operations : List InternalIndexOperation

abbrev pub next_version : ℕ → ℕ
next_version v = (v + 1) % size_mod

unfoldable pub validate_vectors : ℕ → List Float → Bool
validate_vectors d vectors = not (length vectors == 0) && (length vectors % d == 0)

-- A logged operation carries no vector.
unfoldable pub logged : OperationType → ℕ → ℕ → ℤ → InternalIndexOperation
logged kind now version id = record {
  kind = kind;
  id = id;
  vector = [];
  timestamp = now;
  version = version;
}

-- What is found under a label that is not negative.
unfoldable pub results_of : List (ℤ × Float) → List InternalSearchResult
results_of [] = []
results_of ((label, distance) ∷ found) =
    let rest = results_of found in
    if is_negative label
    then rest
    else record { id = label; distance = distance; vector = [] } ∷ rest

module _ {F W : Type 0} (ops : FaissOps F W) where
  unfoldable pub create_index : ℕ → Text → ℤ → ℤ → F
  create_index d index_type m ef_construction =
      if same_text index_type (text "HNSW") || same_text index_type (text "hnsw")
      then ops.hnsw_flat d m ef_construction
      else ops.flat_l2 d

  unfoldable pub new_vector_index : ℤ → Text → ℤ → ℤ → Outcome (VectorIndex F)
  unfolding create_index
  new_vector_index dimension index_type m ef_construction =
      if not_positive dimension
      then thrown
      else returned (record {
        index = create_index (to_size dimension) index_type m ef_construction;
        dimension = to_size dimension;
        index_type = index_type;
        hnsw_m = m;
        hnsw_ef_construction = ef_construction;
        version = 0;
        pending_operations = [];
      })

  unfoldable pub store : ℕ → List Float → List ℤ → VectorIndex F → VectorIndex F
  unfolding logged
  store now vectors ids x = record x {
    index = ops.add_with_ids vectors ids x.index;
    pending_operations = x.pending_operations ++ map (logged add_op now x.version) ids;
    version = next_version x.version;
  }

  unfoldable pub add_vectors : ℕ → List Float → List ℤ → VectorIndex F → VectorIndex F × Bool
  unfolding store validate_vectors
  add_vectors now vectors ids x =
      if not (validate_vectors x.dimension vectors)
        || not (length vectors / x.dimension == length ids)
      then (x, false)
      else if ops.is_id_map2 x.index
      then (store now vectors ids x, true)
      else (x, false)

  abbrev batch_at : {A : Type 0} → ℕ → ℕ → List A → List A
  batch_at offset count l = take count (drop offset l)

  -- The loop from an offset on; without a result the rounds have run out. `now` is what the clock shows
  -- in the batch that begins at an offset.
  unfoldable pub bulk_from :
      ℕ → (ℕ → ℕ) → ℕ → ℕ → List Float → List ℤ → VectorIndex F → Option (VectorIndex F × Bool)
  unfolding add_vectors
  bulk_from zero now batch_size offset vectors ids x =
      if ltb offset (length ids) then none else some (x, true)
  bulk_from (suc rounds) now batch_size offset vectors ids x =
      let batch_count = min batch_size (length ids - offset) in
      let added =
        add_vectors (now offset)
          (batch_at (offset * x.dimension) (batch_count * x.dimension) vectors)
          (batch_at offset batch_count ids) x in
      let rest = bulk_from rounds now batch_size (offset + batch_count) vectors ids added.0 in
      if ltb offset (length ids)
      then (if added.1 then rest else some (added.0, false))
      else some (x, true)

  -- As many rounds as there are ids.
  unfoldable pub add_vectors_bulk :
      (ℕ → ℕ) → ℤ → List Float → List ℤ → VectorIndex F → Option (VectorIndex F × Bool)
  unfolding bulk_from validate_vectors
  add_vectors_bulk now batch_size vectors ids x =
      if not_positive batch_size
      then some (x, false)
      else if not (validate_vectors x.dimension vectors)
          || not (length vectors / x.dimension == length ids)
      then some (x, false)
      else bulk_from (length ids) now (to_size batch_size) 0 vectors ids x

  -- Of a query of several vectors only the first is searched for.
  unfoldable pub search : VectorIndex F → List Float → ℤ → List InternalSearchResult
  unfolding validate_vectors results_of
  search x query k =
      if not (validate_vectors x.dimension query) || not_positive k || (ops.ntotal x.index == 0)
      then []
      else results_of (ops.search 1 query (to_size k) x.index)

  unfoldable pub search_batch : VectorIndex F → List Float → ℤ → List InternalSearchResult
  unfolding validate_vectors results_of
  search_batch x queries k =
      if not (validate_vectors x.dimension queries) || not_positive k || (ops.ntotal x.index == 0)
      then []
      else results_of (ops.search (length queries / x.dimension) queries (to_size k) x.index)

  unfoldable pub after_remove :
      ℕ → ℤ → VectorIndex F → Option (F × ℕ) → Outcome (VectorIndex F × Bool)
  unfolding logged
  after_remove now id x none = thrown
  after_remove now id x (some (f, removed)) =
      if ltb 0 removed
      then returned (
        record x {
          index = f;
          pending_operations = x.pending_operations ++ logged delete_op now x.version id ∷ [];
          version = next_version x.version;
        },
        true,
      )
      else returned (record x { index = f }, false)

  unfoldable pub remove_vector : ℕ → ℤ → VectorIndex F → Outcome (VectorIndex F × Bool)
  unfolding after_remove
  remove_vector now id x = after_remove now id x (ops.remove_ids id x.index)

  abbrev after_removal :
      ℕ → ℤ → List Float → Outcome (VectorIndex F × Bool) → Outcome (VectorIndex F × Bool)
  after_removal now id new_vector o =
      o >>= λ r. returned (if r.1 then add_vectors now new_vector (id ∷ []) r.0 else r)

  -- The clock is read twice.
  unfoldable pub update_vector :
      ℕ → ℕ → ℤ → List Float → VectorIndex F → Outcome (VectorIndex F × Bool)
  unfolding remove_vector add_vectors
  update_vector now then_now id new_vector x =
      if length new_vector == x.dimension
      then after_removal then_now id new_vector (remove_vector now id x)
      else returned (x, false)

  unfoldable pub save_index : Text → W → VectorIndex F → W × Bool
  save_index file_path w x = elim (ops.write_index x.index file_path w) [
    | none ↦ (w, false)
    | some v ↦ (v, true)
  ]

  unfoldable pub load_index : Text → W → VectorIndex F → VectorIndex F × Bool
  load_index file_path w x = elim (ops.read_index file_path w) [
    | none ↦ (x, false)
    | some f ↦
        (record x { index = f; version = next_version x.version; pending_operations = [] }, true)
  ]

  unfoldable pub reset_index : VectorIndex F → VectorIndex F
  unfolding create_index
  reset_index x = record x {
    index = create_index x.dimension x.index_type x.hnsw_m x.hnsw_ef_construction;
    pending_operations = [];
    version = next_version x.version;
  }

  unfoldable pub size : VectorIndex F → ℕ
  size x = ops.ntotal x.index

unfoldable pub set_version : {F : Type 0} → ℕ → VectorIndex F → VectorIndex F
set_version version x = record x { version = version }
