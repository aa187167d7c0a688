-- ===== src/DistributedIvf/Query.antt =====
-- DistributedIndexIVF::search: the nearest centroids, a search through their lists in each shard that
-- has some of them, and the nearest of what the shards return. The address of the first element of
-- an empty array is taken to be harmless where no element is read.
pub mod Groups
pub mod Found
use dann.Prelude.{
  ℕ, zero, suc, ◌%◌, min, Bool, true, false, Option, none, some, List, [], ◌∷◌, ◌++◌, take,
  replicate, get_or, get_elem?, map, length, ltb, ◌-◌, if◌then◌else◌, ℤ, pos, negsuc,
}
use dann.Dict.{find, assign, number_key}
use dann.Types.{
  Float, DistanceWithIndex, InternalSearchResult, Outcome, returned, undefined, thrown, of_option,
  ◌>>=◌,
}
use dann.Ranking.{sort}
use dann.Util.{find_closest_k_with_distance}
use dann.IvfShard.{IndexIvfShard, by_result, search}
use dann.DistributedIvf.{DistributedIndexIvf}

-- `query_centroids_map[shard_id].push_back(c)`
or_none : Option (List ℕ) → List ℕ
or_none none = []
or_none (some cs) = cs

unfoldable pub add_centroid : ℕ → ℕ → List (ℕ × List ℕ) → List (ℕ × List ℕ)
unfolding or_none
add_centroid shard c m = assign shard (or_none (find shard m) ++ c ∷ []) m

unfoldable pub group_from : ℕ → List ℕ → List (ℕ × List ℕ) → List (ℕ × List ℕ)
group_from shard_counts [] m = m
group_from shard_counts (c ∷ cs) m =
    group_from shard_counts cs (add_centroid (c % shard_counts) c m)

-- What `resize` fills in: the default constructor's values.
abbrev pub no_result : InternalSearchResult
no_result = record { id = negsuc 0; distance = 0; vector = [] }

unfoldable pub resize_results : ℕ → List InternalSearchResult → List InternalSearchResult
resize_results k results = take k results ++ replicate (k - length results) no_result

-- resize of a negative size throws
unfoldable pub finish : ℤ → List InternalSearchResult → Outcome (List InternalSearchResult)
unfolding resize_results
finish (pos k) results = returned (resize_results k (sort by_result results))
finish (negsuc k) results = thrown

module _ (fvec_l2sqr : List Float → List Float → Float) where
  -- The tasks share no state that they write; they are run here as they are collected. `shards_[i]`
  -- for an unknown i is a null pointer.
  unfoldable pub search_shards :
      List IndexIvfShard → List (ℕ × List ℕ) → List Float → ℤ → Outcome (List InternalSearchResult)
  search_shards shards [] query k = returned []
  search_shards shards ((i, cs) ∷ m) query k = elim (get_elem? shards i) [
    | none ↦ undefined
    | some shard ↦
        search fvec_l2sqr shard cs query k
        >>= (λ found. search_shards shards m query k >>= (λ rest. returned (found ++ rest)))
  ]

  -- The centroids to probe, the nearest first. Without a build nprobe has no value.
  unfoldable pub closest_centroids : DistributedIndexIvf → List Float → Outcome (List ℕ)
  closest_centroids s query = elim s.nprobe [
    | none ↦ undefined
    | some nprobe ↦
        let count = length s.global_centroid_ids in
        elim (find_closest_k_with_distance fvec_l2sqr s.global_centroids query s.dimension count
          (pos (if ltb count nprobe then count else nprobe))) [
            | none ↦ undefined
            | some items ↦ returned (map (λ e. get_or s.global_centroid_ids e.index 0) items)
          ]
  ]

  unfoldable pub search_index :
      DistributedIndexIvf → List Float → ℤ → Outcome (List InternalSearchResult)
  unfolding closest_centroids group_from search_shards finish
  search_index s query k =
      closest_centroids s query
      >>= (λ cs. search_shards s.shards (group_from s.shard_counts cs []) query k >>= finish k)
