-- ===== src/IvfShard/Search.antt =====
-- The search through a shard finds the k nearest of all vectors in the inverted lists that it probes.
use mathlib.Core.List.{perm_append_comm}
use mathlib.Core.List.Perm
use dann.Prelude.{
  ℕ, suc, ◌≤◌, ◌<◌, ◌≡◌, refl, ◌∙◌, Option, none, some, List, [], ◌∷◌, ◌++◌, map, append_assoc,
  append-nil, length, ℤ, pos, to_size, arith, Option-cases, inl, inr,
}
use dann.Dict.{find, number_key}
use dann.Types.{Float, DistanceWithIndex, InternalSearchResult, InvertedList, returned}
use dann.Ranking.{offer, offer_all, drain}
use dann.Ranking.Laws.{IsAscending, drain-reverse}
use dann.Ranking.Nearest.{
  IsNearest, Holds, empty-Holds, offer_lem, offer_all_lem, merge-IsNearest, reverse-IsNearest,
}
use dann.Ranking.Perm.{map-IsNearest, perm-Holds}
use dann.Util.{by_distance}
use dann.Util.Nearest.{distances, find_closest_k_with_distance-IsNearest}
use dann.IvfShard.{
  IndexIvfShard, by_result, result_of, consider, consider_all, search_posting, search_centroids,
  search,
}

result_of-distance :
    (d : ℕ) (p : InvertedList) (a : DistanceWithIndex) → by_result (result_of d p a) ≡ by_distance a
unfolding result_of
result_of-distance d p a = refl

consider-offer :
    (k : ℕ) (e : InternalSearchResult) (q : List InternalSearchResult)
    → length q ≤ k
    → consider k e q ≡ offer by_result k e q
unfolding consider offer
consider-offer k e [] h = refl
consider-offer k e (t ∷ q) h = ground arith

consider_all-offer_all :
    (k : ℕ) (es cs q : List InternalSearchResult)
    → 0 < k
    → Holds by_result k cs q
    → consider_all k es q ≡ offer_all by_result k es q
unfolding consider_all offer_all
consider_all-offer_all k [] cs q k_pos h = refl
consider_all-offer_all k (e ∷ es) cs q k_pos h =
    let (q', step, h') = offer_lem by_result k e cs q k_pos h in
    rw (consider-offer k e q (omega (arith, h.nearest.size)), step, consider_all, offer_all)
      (consider_all-offer_all k es (e ∷ cs) q' k_pos h')

module _ (fvec_l2sqr : List Float → List Float → Float) where
  -- Every vector of an inverted list, with its distance from the query.
  abbrev pub posting_results : ℕ → InvertedList → List Float → List InternalSearchResult
  posting_results d p query =
      map (result_of d p) (distances fvec_l2sqr p.vectors query d (length p.vector_ids) 0)

  abbrev pub found_results : ℕ → Option InvertedList → List Float → List InternalSearchResult
  found_results d none query = []
  found_results d (some p) query = posting_results d p query

  -- Every vector in the lists of the centroids that the shard has.
  abbrev pub probed : IndexIvfShard → List ℕ → List Float → List InternalSearchResult
  probed s [] query = []
  probed s (c ∷ cs) query = found_results s.dimension (find c s.postings) query ++ probed s cs query

  search_posting_lem :
      (d : ℕ) (p : InvertedList) (query : List Float) (k : ℤ) (cs q : List InternalSearchResult)
      → 0 < to_size k
      → Holds by_result (to_size k) cs q
      → (q' : List InternalSearchResult) × (search_posting fvec_l2sqr d p query k q ≡ some q')
        × Holds by_result (to_size k) (posting_results d p query ++ cs) q'
  unfolding search_posting
  search_posting_lem d p query k cs q k_pos h =
      let (items, found, sorted, nearest) =
        find_closest_k_with_distance-IsNearest fvec_l2sqr p.vectors query d (length p.vector_ids) k
          k_pos in
      let (q', run, h') =
        offer_all_lem by_result (to_size k) (map (result_of d p) items) cs q k_pos h in
      (
        q',
        rw (found, search_posting)
            (consider_all-offer_all (to_size k) (map (result_of d p) items) cs q k_pos h ∙ run),
        record {
          descending = h'.descending;
          nearest =
              merge-IsNearest by_result (to_size k) (posting_results d p query)
                (map (result_of d p) items) cs q'
                (map-IsNearest by_distance by_result (result_of d p) (result_of-distance d p)
                  (to_size k) _ items nearest)
                h'.nearest;
        },
      )

  search_centroids_lem :
      (s : IndexIvfShard) (ids : List ℕ) (query : List Float) (k : ℤ)
      (cs q : List InternalSearchResult)
      → 0 < to_size k
      → Holds by_result (to_size k) cs q
      → (q' : List InternalSearchResult) × (search_centroids fvec_l2sqr s ids query k q ≡ some q')
        × Holds by_result (to_size k) (probed s ids query ++ cs) q'
  unfolding search_centroids
  search_centroids_lem s [] query k cs q k_pos h = (q, refl, h)
  search_centroids_lem s (c ∷ ids) query k cs q k_pos h = elim (Option-cases (find c s.postings)) [
    | inl e ↦
        let (q', run, h') = search_centroids_lem s ids query k cs q k_pos h in
        (q', rw (e, search_centroids) run, rw e h')
    | inr (p, e) ↦
        let (q₁, step, h₁) = search_posting_lem s.dimension p query k cs q k_pos h in
        let (q₂, run, h₂) =
          search_centroids_lem s ids query k (posting_results s.dimension p query ++ cs) q₁ k_pos
            h₁ in
        (
          q₂,
          rw (e, step, search_centroids) run,
          rw e (
              perm-Holds by_result (to_size k)
                (probed s ids query ++ (posting_results s.dimension p query ++ cs))
                ((posting_results s.dimension p query ++ probed s ids query) ++ cs) q₂
                (rw (← append_assoc) (
                  Perm.append_right cs
                    (perm_append_comm (probed s ids query) (posting_results s.dimension p query))))
                h₂),
        )
  ]

  -- For a positive k the search returns, and its result is made of the k nearest of the vectors in
  -- the probed lists, in ascending order of distance.
  pub search-IsNearest :
      (s : IndexIvfShard) (centroid_ids : List ℕ) (query : List Float) (n : ℕ)
      → (result : List InternalSearchResult) × (search fvec_l2sqr s centroid_ids query (pos (suc n))
          ≡ returned result)
        × IsAscending by_result result
        × IsNearest by_result (suc n) (probed s centroid_ids query) result
  unfolding search
  search-IsNearest s ids query n =
      let (q, run, h) =
        search_centroids_lem s ids query (pos (suc n)) [] [] (omega arith)
          (empty-Holds by_result (suc n)) in
      let (sorted, nearest) =
        reverse-IsNearest by_result (suc n) (probed s ids query) q (rw append-nil at h) in
      (drain q [], rw (run, search), rw drain-reverse sorted, rw drain-reverse nearest)
