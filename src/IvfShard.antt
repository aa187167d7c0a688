-- ===== src/IvfShard.antt =====
-- src/core/ivf_shard.cpp: the inverted lists of one shard, and the search through some of them.
pub mod Search
pub mod Postings
use dann.Prelude.{
  ℕ, ◌*◌, Bool, true, false, ◌||◌, Option, none, some, List, [], ◌∷◌, ◌++◌, map, take, drop, get_or,
  length, ltb, ◌==◌, if◌then◌else◌, ℤ, negsuc, to_size, is_negative,
}
use dann.Dict.{find, assign, number_key}
use dann.Types.{
  Float, DistanceWithIndex, InternalSearchResult, InvertedList, Outcome, returned, undefined,
  thrown,
}
use dann.Ranking.{push, drain}
use dann.Util.{find_closest_k_with_distance}

-- Centroids are numbered from 0.
pub record IndexIvfShard : Type 0 where
  pub dimension : ℕ
  pub shard_id : ℕ
  pub node_id : List ℕ
  pub postings : List (ℕ × InvertedList)

unfoldable pub create_shard : ℕ → ℕ → List ℕ → IndexIvfShard
create_shard d shard_id node_id = record {
  dimension = d;
  shard_id = shard_id;
  node_id = node_id;
  postings = [];
}

-- The entry that is there, or the new empty one.
posting_or_empty : Option InvertedList → InvertedList
posting_or_empty none = record { vector_ids = []; vectors = [] }
posting_or_empty (some p) = p

extend_posting : InvertedList → InvertedList → InvertedList
extend_posting old posting = record {
  vector_ids = old.vector_ids ++ posting.vector_ids;
  vectors = old.vectors ++ posting.vectors;
}

unfoldable pub add_posting : ℕ → InvertedList → IndexIvfShard → IndexIvfShard
unfolding posting_or_empty extend_posting
add_posting centroid posting s = record s {
  postings =
      assign centroid (extend_posting (posting_or_empty (find centroid s.postings)) posting)
        s.postings;
}

-- The entries in the order in which the map is iterated.
unfoldable pub add_postings : List (ℕ × InvertedList) → IndexIvfShard → IndexIvfShard
add_postings [] s = s
add_postings ((c, inv) ∷ postings) s = add_postings postings (add_posting c inv s)

abbrev pub by_result : InternalSearchResult → ℕ
by_result r = r.distance

-- The element that is emplaced for a row of a posting list. Rows are below the number of ids.
unfoldable pub result_of : ℕ → InvertedList → DistanceWithIndex → InternalSearchResult
result_of d p item = record {
  id = get_or p.vector_ids item.index (negsuc 0);
  distance = item.distance;
  vector = take d (drop (item.index * d) p.vectors);
}

-- One item of the inner loop; `none` where `top` is called on an empty queue.
consider : ℕ → InternalSearchResult → List InternalSearchResult → Option (List InternalSearchResult)
consider k e [] = if ltb 0 k then some (e ∷ []) else none
consider k e (t ∷ q) =
    if ltb (length (t ∷ q)) k || ltb e.distance t.distance
    then some (push by_result e (if length (t ∷ q) == k then q else t ∷ q))
    else some (t ∷ q)

consider_all :
    ℕ → List InternalSearchResult → List InternalSearchResult → Option (List InternalSearchResult)
consider_all k [] q = some q
consider_all k (e ∷ es) q = elim (consider k e q) [ none ↦ none | some q' ↦ consider_all k es q' ]

module _ (fvec_l2sqr : List Float → List Float → Float) where
  -- one found posting list
  search_posting :
      ℕ
      → InvertedList
      → List Float
      → ℤ
      → List InternalSearchResult
      → Option (List InternalSearchResult)
  search_posting d p query k queue =
      elim (find_closest_k_with_distance fvec_l2sqr p.vectors query d (length p.vector_ids) k) [
        | none ↦ none
        | some items ↦ consider_all (to_size k) (map (result_of d p) items) queue
      ]

  -- the loop over the centroids
  search_centroids :
      IndexIvfShard
      → List ℕ
      → List Float
      → ℤ
      → List InternalSearchResult
      → Option (List InternalSearchResult)
  search_centroids s [] query k queue = some queue
  search_centroids s (c ∷ cs) query k queue = elim (find c s.postings) [
    | none ↦ search_centroids s cs query k queue
    | some p ↦ elim (search_posting s.dimension p query k queue) [
      | none ↦ none
      | some queue' ↦ search_centroids s cs query k queue'
    ]
  ]

  -- `result.reserve(k)` throws for a negative k.
  unfoldable pub search :
      IndexIvfShard → List ℕ → List Float → ℤ → Outcome (List InternalSearchResult)
  unfolding search_centroids search_posting consider_all consider
  search s centroid_ids query k =
      if is_negative k then thrown else elim (search_centroids s centroid_ids query k []) [
        | none ↦ undefined
        | some queue ↦ returned (drain queue [])
      ]
