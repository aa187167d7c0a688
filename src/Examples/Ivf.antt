-- ===== src/Examples/Ivf.antt =====
-- A distributed index of one-dimensional vectors over two shards.
use mathlib.Core.List.Perm
use dann.Prelude.{
  ℕ, ◌/◌, ◌%◌, ◌<◌, ◌≡◌, refl, none, some, true, false, List, [], ◌∷◌, All, get_or, length, take,
  map, pos, negsuc, arith,
}
use dann.Dict.{find}
use dann.Types.{Float, DistanceWithIndex, InternalSearchResult, returned, undefined}
use dann.Ranking.Laws.{IsAscending}
use dann.Ranking.Nearest.{IsNearest}
use dann.Util.{by_distance}
use dann.Util.Nearest.{distances}
use dann.IvfShard.{create_shard, by_result}
use dann.IvfShard.Postings.{posting_at}
use dann.Clustering.Train.{Kernels}
use dann.DistributedIvf.{DistributedIndexIvf}
use dann.DistributedIvf.Sample.{
  IsDistinct, extract, sample_training_vectors, sample_training_vectors-IsDistinct,
}
use dann.DistributedIvf.Build.{index_vectors, build_index}
use dann.DistributedIvf.Build.Counting.{gather_ids, gather_rows}
use dann.DistributedIvf.Build.Nearest.{AreNearest}
use dann.DistributedIvf.Build.Places.{index_vectors-posting_at}
use dann.DistributedIvf.Build.Few.{build_index_few}
use dann.DistributedIvf.Query.{resize_results, search_index}
use dann.DistributedIvf.Query.Groups.{candidates}
use dann.DistributedIvf.Query.Found.{search_index-IsNearest}
use dann.Examples.Clusters.{plain}
use dann.Examples.Searches.{l2}

abbrev measured : Kernels
measured = record plain { fvec_l2sqr = l2 }

abbrev index : DistributedIndexIvf
index = record {
  name = [];
  dimension = 1;
  is_trained = false;
  shard_counts = 2;
  nlist = negsuc 0;
  nprobe = none;
  global_centroids = [];
  global_centroid_ids = [];
  shards = create_shard 1 0 [] ∷ create_shard 1 1 [] ∷ [];
  nodes = [] ∷ [];
}

abbrev built : DistributedIndexIvf
built = record index {
  is_trained = true;
  nprobe = some 1;
  global_centroids = 5 ∷ 20 ∷ [];
  global_centroid_ids = 0 ∷ 1 ∷ [];
}

abbrev three : List Float
three = 4 ∷ 21 ∷ 6 ∷ []

index_vectors-posting_at_example :
    (assigned : List ℕ) × (length assigned ≡ 3)
    × AreNearest measured (5 ∷ 20 ∷ []) three 1 2 assigned 0
    × (s' : DistributedIndexIvf) × (index_vectors measured index three
          (pos 7 ∷ pos 8 ∷ pos 9 ∷ [])
          (5 ∷ 20 ∷ [])
        ≡ returned s')
    × (posting_at (get_or s'.shards (1 % 2) (create_shard 0 0 [])) 1 ≡ record {
      vector_ids = gather_ids 1 assigned (pos 7 ∷ pos 8 ∷ pos 9 ∷ []);
      vectors = gather_rows 1 three 1 assigned 0;
    })
unfolding gather_ids posting_at gather_rows find create_shard
index_vectors-posting_at_example =
    index_vectors-posting_at measured index three (pos 7 ∷ pos 8 ∷ pos 9 ∷ []) (5 ∷ 20 ∷ []) 1
      (create_shard 0 0 []) (omega arith) refl (omega arith) (omega arith)

build_index_few_example :
    build_index plain (λ i. 0) index three (pos 7 ∷ pos 8 ∷ pos 9 ∷ []) ≡ undefined
build_index_few_example =
    build_index_few plain (λ seed l. Perm.refl l) (λ i. 0) index three (pos 7 ∷ pos 8 ∷ pos 9 ∷ [])
      0 refl (omega arith) refl (omega arith) (omega arith)

search_index-IsNearest_example :
    (items : List DistanceWithIndex) × (found : List InternalSearchResult) × (search_index l2 built
        (6 ∷ [])
        (pos 2)
      ≡ returned (resize_results 2 found))
    × IsAscending by_result found
    × IsNearest by_distance 1 (distances l2 (5 ∷ 20 ∷ []) (6 ∷ []) 1 2 0) items
    × IsNearest by_result 2
        (candidates l2 built.shards (6 ∷ []) 2 (map (λ e. get_or (0 ∷ 1 ∷ []) e.index 0) items))
        (take 2 found)
search_index-IsNearest_example =
    search_index-IsNearest l2 built (6 ∷ []) 0 1 refl (omega arith) (omega arith) refl

sample_training_vectors-IsDistinct_example :
    (rows : List ℕ) × (sample_training_vectors (λ i. 1) three 1 2 ≡ extract three 1 rows)
    × (length rows ≡ 2)
    × All (λ x. x < 3 / 1) rows
    × IsDistinct rows
sample_training_vectors-IsDistinct_example =
    sample_training_vectors-IsDistinct (λ i. 1) three 1 2 (omega arith)
