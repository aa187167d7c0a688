-- ===== src/Index/Merged.antt =====
-- The merge of the shards' results.
use dann.Prelude.{List, [], ◌∷◌, ◌++◌, ℤ}
use dann.Types.{Float, InternalSearchResult}
use dann.Index.{IndexShard, Index}

-- What the shards return, one after the other.
unfoldable pub all_found :
    {S : Type 0} → IndexShard S → List S → List Float → ℤ → List InternalSearchResult
all_found ops [] query k = []
all_found ops (s ∷ shards) query k = ops.search s query k ++ all_found ops shards query k
