-- ===== src/DistributedIvf/Query/Found.antt =====
-- What the search through all shards finds.
use dann.Prelude.{
  ℕ, zero, suc, ◌<◌, ◌≡◌, refl, some, List, [], ◌∷◌, ◌++◌, append-nil, append_assoc, take, get_or,
  get_elem?, map, length, ltb, if◌then◌else◌, pos, arith,
}
use dann.Types.{Float, DistanceWithIndex, InternalSearchResult, returned}
use dann.Ranking.{sort}
use dann.Ranking.Laws.{IsAscending, sort-IsAscending}
use dann.Ranking.Nearest.{IsNearest, merge-IsNearest}
use dann.Ranking.Perm.{perm-IsNearest}
use dann.Ranking.Merge.{take-sort-IsNearest, swap_front, swap_middle}
use dann.Util.{by_distance}
use dann.Util.Nearest.{distances, find_closest_k_with_distance-IsNearest}
use dann.IvfShard.{IndexIvfShard, create_shard, by_result}
use dann.IvfShard.Search.{probed, search-IsNearest}
use dann.DistributedIvf.{DistributedIndexIvf}
use dann.DistributedIvf.Query.{
  group_from, resize_results, finish, search_shards, closest_centroids, search_index,
}
use dann.DistributedIvf.Query.Groups.{
  InRange, group_from-InRange, candidates, grouped, group_from-perm,
}

get_elem?-get_or :
    (shards : List IndexIvfShard) (i : ℕ) (d : IndexIvfShard)
    → i < length shards
    → get_elem? shards i ≡ some (get_or shards i d)
get_elem?-get_or [] i d h = absurd (omega arith)
get_elem?-get_or (s ∷ shards) zero d h = refl
get_elem?-get_or (s ∷ shards) (suc i) d h = get_elem?-get_or shards i d (omega arith)

module _ (fvec_l2sqr : List Float → List Float → Float) where
  -- Searching the shards returns, and what they return has the nearest of all their candidates.
  search_shards_lem :
      (shards : List IndexIvfShard) (m : List (ℕ × List ℕ)) (query : List Float) (n : ℕ)
      → InRange (length shards) m
      → (found : List InternalSearchResult) × (search_shards fvec_l2sqr shards m query (pos (suc n))
          ≡ returned found)
        × ((cs q : List InternalSearchResult)
            → IsNearest by_result (suc n) (found ++ cs) q
            → IsNearest by_result (suc n) (grouped fvec_l2sqr shards query m ++ cs) q)
  unfolding search_shards
  search_shards_lem shards [] query n h = ([], refl, λ cs q near. near)
  search_shards_lem shards ((i, cs) ∷ m) query n h =
      let (found, run, sorted, near) =
        search-IsNearest fvec_l2sqr (get_or shards i (create_shard 0 0 [])) cs query n in
      let (rest, run', near') = search_shards_lem shards m query n h.1 in
      (
        found ++ rest,
        rw (get_elem?-get_or shards i (create_shard 0 0 []) h.0, search_shards, run, run'),
        λ more q hyp.
            perm-IsNearest by_result (suc n) _ _ q
              (swap_front (grouped fvec_l2sqr shards query m)
                (probed fvec_l2sqr (get_or shards i (create_shard 0 0 [])) cs query) more)
              (near' (probed fvec_l2sqr (get_or shards i (create_shard 0 0 [])) cs query ++ more) q
                (perm-IsNearest by_result (suc n) _ _ q
                  (swap_middle (probed fvec_l2sqr (get_or shards i (create_shard 0 0 [])) cs query)
                    rest more)
                  (merge-IsNearest by_result (suc n)
                    (probed fvec_l2sqr (get_or shards i (create_shard 0 0 [])) cs query) found
                    (rest ++ more) q near (rw (← append_assoc) hyp)))),
      )

  -- A built index whose nprobe is not 0 searches for a positive k without an error. The result is
  -- what was found, sorted by distance and brought to length k; its first k are the k nearest of all
  -- vectors in the lists of the probed centroids, which are the nearest centroids.
  pub search_index-IsNearest :
      (s : DistributedIndexIvf) (query : List Float) (p n : ℕ)
      → s.nprobe ≡ some (suc p)
      → 0 < length s.global_centroid_ids
      → 0 < s.shard_counts
      → length s.shards ≡ s.shard_counts
      → (items : List DistanceWithIndex) × (found : List InternalSearchResult) × (search_index
            fvec_l2sqr s query
            (pos (suc n))
          ≡ returned (resize_results (suc n) found))
        × IsAscending by_result found
        × IsNearest by_distance
            (if ltb (length s.global_centroid_ids) (suc p)
              then length s.global_centroid_ids
              else suc p)
            (distances fvec_l2sqr s.global_centroids query s.dimension
              (length s.global_centroid_ids)
              0)
            items
        × IsNearest by_result
            (suc n)
            (candidates fvec_l2sqr s.shards query s.shard_counts
              (map (λ e. get_or s.global_centroid_ids e.index 0) items))
            (take (suc n) found)
  unfolding search_index closest_centroids finish
  search_index-IsNearest s query p n e some_id positive placed =
      let (items, run, sorted, near) =
        find_closest_k_with_distance-IsNearest fvec_l2sqr s.global_centroids query s.dimension
          (length s.global_centroid_ids)
          (pos (
            if ltb (length s.global_centroid_ids) (suc p)
            then length s.global_centroid_ids
            else suc p))
          (ground arith) in
      let ids = map (λ e. get_or s.global_centroid_ids e.index 0) items in
      let (found, run', merge) =
        search_shards_lem s.shards (group_from s.shard_counts ids []) query n
          (rw placed (group_from-InRange s.shard_counts ids [] positive tt)) in
      (
        items,
        sort by_result found,
        rw (e, closest_centroids, run, run'),
        sort-IsAscending by_result found,
        near,
        perm-IsNearest by_result (suc n)
            (grouped fvec_l2sqr s.shards query (group_from s.shard_counts ids []) ++ [])
            (candidates fvec_l2sqr s.shards query s.shard_counts ids)
            (take (suc n) (sort by_result found))
            (rw append-nil (group_from-perm fvec_l2sqr s.shards query s.shard_counts ids []))
            (merge [] (take (suc n) (sort by_result found))
              (rw append-nil (take-sort-IsNearest by_result (suc n) found))),
      )
