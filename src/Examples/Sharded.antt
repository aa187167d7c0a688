-- ===== src/Examples/Sharded.antt =====
-- An index over two shards that keep lists of results.
use dann.Prelude.{ℕ, ◌≡◌, List, [], ◌∷◌, take, replicate, get_or, true, pos, to_size, arith}
use dann.Types.{InternalSearchResult}
use dann.Ranking.{sort}
use dann.IvfShard.{by_result}
use dann.Index.{IndexShard, Index, route_from}
use dann.Index.Routes.{ids_for, rows_for, route_from-start}

abbrev Held : Type 0
Held = List InternalSearchResult

abbrev exact : IndexShard Held
exact = record {
  add_vectors = λ vectors ids s. (s, true);
  search = λ s query k. take (to_size k) (sort by_result s);
  size = λ s. 0;
}

abbrev hit : ℕ → InternalSearchResult
hit n = record { id = pos n; distance = n; vector = [] }

abbrev two : Index Held
two = record { name = []; dimension = 1; shards = (hit 4 ∷ hit 2 ∷ []) ∷ (hit 3 ∷ []) ∷ [] }

route_from-start_example :
    (get_or
        (route_from to_size 2 1
          (7 ∷ 8 ∷ [])
          (pos 3 ∷ pos 4 ∷ [])
          0
          (record { shard_ids = replicate 2 []; shard_vectors = replicate 2 [] })).shard_ids
        1
        []
      ≡ ids_for to_size 2 1 (7 ∷ 8 ∷ []) 1 (pos 3 ∷ pos 4 ∷ []))
    × (get_or
          (route_from to_size 2 1
            (7 ∷ 8 ∷ [])
            (pos 3 ∷ pos 4 ∷ [])
            0
            (record { shard_ids = replicate 2 []; shard_vectors = replicate 2 [] })).shard_vectors
          1
          []
        ≡ rows_for to_size 2 1 (7 ∷ 8 ∷ []) 1 (pos 3 ∷ pos 4 ∷ []) 0)
route_from-start_example =
    route_from-start to_size 2 1 (7 ∷ 8 ∷ []) (pos 3 ∷ pos 4 ∷ []) 1 (omega arith)
