-- ===== src/Util/Nearest.antt =====
-- The k nearest rows.
use mathlib.Core.Option
use dann.Prelude.{
  ℕ, zero, suc, ◌*◌, ◌<◌, ◌≡◌, refl, ◌∙◌, none, some, List, [], ◌∷◌, ◌++◌, reverse, append-nil,
  append_assoc, drop, map, map-reverse, ℤ, pos, to_size, Option-cases, inl, inr,
}
use dann.Types.{Float, DistanceWithIndex}
use dann.Ranking.{offer, offer_all, drain}
use dann.Ranking.Laws.{IsAscending, drain-reverse}
use dann.Ranking.Nearest.{IsNearest, offer_all-Holds, reverse-IsNearest}
use dann.Util.{
  by_distance, l2_distance, closest_queue, find_closest_k_with_distance, drain_indices,
  find_closest_k,
}

module _ (fvec_l2sqr : List Float → List Float → Float) where
  -- Row i, row i + 1, ... with their distances from y.
  unfoldable pub distances : List Float → List Float → ℕ → ℕ → ℕ → List DistanceWithIndex
  distances x y d zero i = []
  distances x y d (suc n) i =
      record { distance = l2_distance fvec_l2sqr (drop (i * d) x) y d; index = i }
      ∷ distances x y d n (suc i)

  closest_queue-offer_all :
      (x y : List Float) (d n k i : ℕ) (queue : List DistanceWithIndex)
      → closest_queue fvec_l2sqr x y d n k i queue
        ≡ offer_all by_distance k (distances x y d n i) queue
  unfolding closest_queue distances offer_all
  closest_queue-offer_all x y d zero k i queue = refl
  closest_queue-offer_all x y d (suc n) k i queue =
      elim (Option-cases (offer by_distance k e queue)) [
        | inl e₀ ↦ rw (e₀, closest_queue, offer_all)
        | inr (queue', e₁) ↦
            rw (e₁, closest_queue, offer_all) (closest_queue-offer_all x y d n k (suc i) queue')
      ]
    where
      e : DistanceWithIndex
      e = record { distance = l2_distance fvec_l2sqr (drop (i * d) x) y d; index = i }

  -- For a k that is not 0, find_closest_k_with_distance returns, and its result is made of the k
  -- nearest of the n rows (all of them if n is less), in ascending order of distance.
  pub find_closest_k_with_distance-IsNearest :
      (x y : List Float) (d n : ℕ) (k : ℤ)
      → 0 < to_size k
      → (result : List DistanceWithIndex) × (find_closest_k_with_distance fvec_l2sqr x y d n k
          ≡ some result)
        × IsAscending by_distance result
        × IsNearest by_distance (to_size k) (distances x y d n 0) result
  unfolding find_closest_k_with_distance
  find_closest_k_with_distance-IsNearest x y d n k k_pos =
      let (q, run, h) = offer_all-Holds by_distance (to_size k) (distances x y d n 0) k_pos in
      let run' : closest_queue fvec_l2sqr x y d n (to_size k) 0 [] ≡ some q =
        closest_queue-offer_all x y d n (to_size k) 0 [] ∙ run in
      (
        drain q [],
        rw (run', find_closest_k_with_distance),
        rw drain-reverse (reverse-IsNearest by_distance (to_size k) (distances x y d n 0) q h).0,
        rw drain-reverse (reverse-IsNearest by_distance (to_size k) (distances x y d n 0) q h).1,
      )

  drain_indices-append :
      (q : List DistanceWithIndex) (result : List ℕ)
      → drain_indices fvec_l2sqr q result ≡ reverse (result ++ map (λ e. e.index) q)
  unfolding drain_indices
  drain_indices-append [] result = rw append-nil
  drain_indices-append (t ∷ q) result =
      drain_indices-append q (result ++ t.index ∷ []) ∙ rw append_assoc

  -- find_closest_k returns the indices that find_closest_k_with_distance returns, and is undefined
  -- on the same arguments.
  find_closest_k-indices :
      (x y : List Float) (d n : ℕ) (k : ℤ)
      → find_closest_k fvec_l2sqr x y d n k
        ≡ Option.map (map (λ e. e.index)) (find_closest_k_with_distance fvec_l2sqr x y d n k)
  unfolding find_closest_k find_closest_k_with_distance
  find_closest_k-indices x y d n k =
      elim (Option-cases (closest_queue fvec_l2sqr x y d n (to_size k) 0 [])) [
        | inl e ↦ rw (e, find_closest_k, find_closest_k_with_distance)
        | inr (q, e) ↦
            rw
              (e, find_closest_k, find_closest_k_with_distance, drain-reverse, drain_indices-append)
              (rw map-reverse)
      ]

  -- With k = 0 and a row to look at, both functions call `top` on an empty queue.
  pub find_closest_k_with_distance_zero :
      (x y : List Float) (d n : ℕ)
      → find_closest_k_with_distance fvec_l2sqr x y d (suc n) (pos 0) ≡ none
  unfolding find_closest_k_with_distance closest_queue offer
  find_closest_k_with_distance_zero x y d n = refl
