-- ===== src/Util.antt =====
-- src/utils/util.cpp: the nearest rows of an array of vectors. faiss::fvec_L2sqr is a parameter; it
-- gets the d floats at each of its pointers. An array is a list, a pointer into it a suffix.
pub mod Nearest
pub mod Closest
use dann.Prelude.{
  ℕ, zero, suc, ◌+◌, ◌*◌, Option, none, some, List, [], ◌∷◌, ◌++◌, reverse, take, drop, ltb,
  if◌then◌else◌, ℤ, to_size,
}
use dann.Types.{Float, DistanceWithIndex, float_max}
use dann.Ranking.{offer, drain}

abbrev pub by_distance : DistanceWithIndex → ℕ
by_distance e = e.distance

-- The loop `for (i = 0; i < n; i++) { dis = ...; if (dis < min_dis) { min_dis = dis; r = i; } }`
-- from round i on, with n rounds left.
unfoldable pub closest_from : (ℕ → Float) → ℕ → ℕ → Float → ℕ → ℕ
closest_from dis zero i min_dis r = r
closest_from dis (suc n) i min_dis r =
    closest_from dis n (suc i) (if ltb (dis i) min_dis then dis i else min_dis)
      (if ltb (dis i) min_dis then i else r)

-- The callers give at least n rows, and n * d fits an int: rows past the end of x, which would be read
-- out of bounds, are short ones here.
module _ (fvec_l2sqr : List Float → List Float → Float) where
  unfoldable pub l2_distance : List Float → List Float → ℕ → Float
  l2_distance x y d = fvec_l2sqr (take d x) (take d y)

  unfoldable pub find_closest : List Float → List Float → ℕ → ℕ → ℕ
  find_closest x y d n = closest_from (λ i. l2_distance (drop (i * d) x) y d) n 0 float_max 0

  -- the loop that find_closest_k and find_closest_k_with_distance share
  closest_queue :
      List Float
      → List Float
      → ℕ
      → ℕ
      → ℕ
      → ℕ
      → List DistanceWithIndex
      → Option (List DistanceWithIndex)
  closest_queue x y d zero k i queue = some queue
  closest_queue x y d (suc n) k i queue =
      elim (offer by_distance k (record { distance = l2_distance (drop (i * d) x) y d; index = i })
        queue) [ none ↦ none | some queue' ↦ closest_queue x y d n k (suc i) queue' ]

  -- `none` where the source calls `top` on an empty queue
  unfoldable pub find_closest_k_with_distance :
      List Float → List Float → ℕ → ℕ → ℤ → Option (List DistanceWithIndex)
  unfolding closest_queue
  find_closest_k_with_distance x y d n k = elim (closest_queue x y d n (to_size k) 0 []) [
    | none ↦ none
    | some queue ↦ some (drain queue [])
  ]

  drain_indices : List DistanceWithIndex → List ℕ → List ℕ
  drain_indices [] result = reverse result
  drain_indices (t ∷ queue) result = drain_indices queue (result ++ t.index ∷ [])

  unfoldable pub find_closest_k : List Float → List Float → ℕ → ℕ → ℤ → Option (List ℕ)
  unfolding closest_queue drain_indices
  find_closest_k x y d n k = elim (closest_queue x y d n (to_size k) 0 []) [
    | none ↦ none
    | some queue ↦ some (drain_indices queue [])
  ]
