-- ===== src/Examples/Searches.antt =====
-- Nearest rows and the search through a shard, with squared distances of small numbers.
use dann.Prelude.{ℕ, ◌+◌, ◌-◌, ◌*◌, ◌≡◌, refl, some, List, [], ◌∷◌, drop, pos, arith}
use dann.Types.{DistanceWithIndex, InternalSearchResult, InvertedList, returned, float_max}
use dann.Ranking.Laws.{IsAscending}
use dann.Ranking.Nearest.{IsNearest}
use dann.Ranking.{offer}
use dann.Util.{
  closest_from, by_distance, l2_distance, find_closest, find_closest_k,
  find_closest_k_with_distance,
}
use dann.Util.Nearest.{distances, find_closest_k_with_distance-IsNearest}
use dann.Util.Closest.{IsFirstLeast, find_closest-IsFirstLeast}
use dann.IvfShard.{IndexIvfShard, by_result, search}
use dann.IvfShard.Search.{probed, search-IsNearest}

abbrev square_diff : ℕ → ℕ → ℕ
square_diff a b = (a - b) * (a - b) + (b - a) * (b - a)

abbrev pub l2 : List ℕ → List ℕ → ℕ
l2 [] ys = 0
l2 (x ∷ xs) [] = 0
l2 (x ∷ xs) (y ∷ ys) = square_diff x y + l2 xs ys

-- three rows of two floats
abbrev rows : List ℕ
rows = 9 ∷ 9 ∷ 1 ∷ 2 ∷ 4 ∷ 4 ∷ []

abbrev query : List ℕ
query = 1 ∷ 1 ∷ []

find_closest_k_runs : find_closest_k l2 rows query 2 3 (pos 2) ≡ some (1 ∷ 2 ∷ [])
unfolding find_closest_k offer l2_distance
find_closest_k_runs = refl

find_closest_runs : find_closest l2 rows query 2 3 ≡ 1
unfolding find_closest closest_from l2_distance
find_closest_runs = refl

find_closest_k_with_distance-IsNearest_example :
    (result : List DistanceWithIndex) × (find_closest_k_with_distance l2 rows query 2 3 (pos 2)
      ≡ some result)
    × IsAscending by_distance result
    × IsNearest by_distance 2 (distances l2 rows query 2 3 0) result
find_closest_k_with_distance-IsNearest_example =
    find_closest_k_with_distance-IsNearest l2 rows query 2 3 (pos 2) (omega arith)

find_closest-IsFirstLeast_example :
    IsFirstLeast
      (λ i. l2_distance l2 (drop (i * 2) rows) query 2)
      float_max
      0
      3
      (find_closest l2 rows query 2 3)
unfolding l2_distance
find_closest-IsFirstLeast_example =
    find_closest-IsFirstLeast l2 rows query 2 3 1 (omega arith) (omega arith)

abbrev first_list : InvertedList
first_list = record { vector_ids = pos 10 ∷ pos 11 ∷ []; vectors = 9 ∷ 9 ∷ 1 ∷ 2 ∷ [] }

abbrev second_list : InvertedList
second_list = record { vector_ids = pos 12 ∷ []; vectors = 4 ∷ 4 ∷ [] }

abbrev shard : IndexIvfShard
shard = record {
  dimension = 2;
  shard_id = 0;
  node_id = [];
  postings = (0, first_list) ∷ (5, second_list) ∷ [];
}

search-IsNearest_example :
    (result : List InternalSearchResult) × (search l2 shard (5 ∷ 0 ∷ 7 ∷ []) query (pos 2)
      ≡ returned result)
    × IsAscending by_result result
    × IsNearest by_result 2 (probed l2 shard (5 ∷ 0 ∷ 7 ∷ []) query) result
search-IsNearest_example = search-IsNearest l2 shard (5 ∷ 0 ∷ 7 ∷ []) query 1
