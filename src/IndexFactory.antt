-- ===== src/IndexFactory.antt =====
-- src/core/index_factory.cpp: the shards that an index is made of, by the name of their type.
use dann.Prelude.{ℕ, Option, none, some, List, if◌then◌else◌, ℤ, pos}
use dann.Dict.{Text, same_text}
use dann.Types.{Outcome, returned, ◌>>=◌}
use dann.Config.{text}
use dann.DistributedIvf.{DistributedIndexIvf, create}
use dann.VectorIndex.{FaissOps, VectorIndex, new_vector_index}

-- What the pointer to an IndexShard points to.
pub data AnyShard (F : Type 0) : Type 0 where
  ivf : DistributedIndexIvf → AnyShard F
  hnsw : VectorIndex F → AnyShard F

-- An unknown type gives nullptr. The dimension and the number of shards have been tested by the index
-- that calls it, so they are not negative.
unfoldable pub create_index_shard :
    {F W : Type 0}
    → FaissOps F W
    → Text
    → Text
    → ℕ
    → ℕ
    → ℤ
    → ℤ
    → List Text
    → Outcome (Option (AnyShard F))
unfolding create new_vector_index
create_index_shard ops name index_type dim shards ef ef_construction nodes =
    if same_text index_type (text "IVF")
    then (create name dim shards nodes >>= λ x. returned (some (ivf x)))
    else if same_text index_type (text "HNSW")
    then (new_vector_index ops (pos dim) index_type ef ef_construction >>= λ x.
        returned (some (hnsw x)))
    else returned none
