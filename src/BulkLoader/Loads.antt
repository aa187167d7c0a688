-- ===== src/BulkLoader/Loads.antt =====
-- What load_vectors_sync of src/core/bulk_loader.cpp does to the index and to the metrics.
use dann.Prelude.{
  ℕ, ◌*◌, ◌≡◌, Bool, false, not, ◌&&◌, some, List, ◌++◌, length, ltb, ◌==◌, if◌then◌else◌, ℤ,
  not_positive,
}
use dann.Types.{Float}
use dann.Metrics.{Double, DoubleOps}
use dann.VectorIndex.{FaissOps, VectorIndex}
use dann.VectorIndex.Bulk.{numbered, IsReady, Grows}
use dann.BulkLoader.{BulkLoadRequest, BulkLoader, after_success, after_failure}

-- At least one id, and d floats for each.
abbrev pub is_sized : ℕ → List Float → List ℤ → Bool
is_sized d vectors ids = ltb 0 (length ids) && (length vectors == length ids * d)

-- A request of the right size with a positive batch size.
abbrev pub is_loadable : ℕ → BulkLoadRequest → Bool
is_loadable d request =
    if is_sized d request.vectors request.ids then not (not_positive request.batch_size) else false

-- What is left of a loader whose load has ended in `ok`, with x in the index.
abbrev pub after :
    {F : Type 0}
    → DoubleOps
    → (ℕ → ℕ → Double)
    → ℕ
    → ℕ
    → BulkLoader F
    → VectorIndex F
    → Bool
    → BulkLoader F
after doubles rate ids elapsed_ms s x ok = record s {
  index = some x;
  metrics =
      if ok
      then after_success doubles rate ids elapsed_ms s.metrics
      else after_failure doubles rate s.metrics;
}

module _ {F W : Type 0} (ops : FaissOps F W) (contents : F → List (ℤ × List Float))
    (index_d : F → ℕ)
    (contents-add : (vectors : List Float) (ids : List ℤ) (f : F)
      → length vectors ≡ length ids * index_d f
      → contents (ops.add_with_ids vectors ids f) ≡ contents f ++ numbered (index_d f) ids vectors)
    (index_d-add : (vectors : List Float) (ids : List ℤ) (f : F)
      → index_d (ops.add_with_ids vectors ids f) ≡ index_d f)
    (is_id_map2-add : (vectors : List Float) (ids : List ℤ) (f : F)
      → ops.is_id_map2 (ops.add_with_ids vectors ids f) ≡ ops.is_id_map2 f) where
  abbrev Adds : List (ℤ × List Float) → VectorIndex F → VectorIndex F → Type 0
  Adds = Grows ops contents index_d contents-add index_d-add is_id_map2-add

  abbrev Ready : VectorIndex F → Type 0
  Ready = IsReady ops contents index_d contents-add index_d-add is_id_map2-add
