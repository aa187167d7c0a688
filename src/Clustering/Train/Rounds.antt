-- ===== src/Clustering/Train/Rounds.antt =====
-- One round of the training: where its counts come from.
use dann.Prelude.{
  ℕ, suc, ◌+◌, ◌≤◌, ◌<◌, ◌≡◌, ◌∙◌, List, [], ◌∷◌, All, get_or, update_at, replicate, length,
  length-update_at, length-replicate, sum, sum-update_suc, sum-replicate_zero, arith, subst,
}
use dann.Types.{Float}
use dann.Clustering.{split_clusters}
use dann.Clustering.Balance.{sum-split_clusters, split_clusters-filled}
use dann.Clustering.Train.{Kernels, accumulate, round}

module _ (lib : Kernels) (d k : ℕ) where
  accumulate-counts :
      (vectors : List Float) (assign : List ℕ) (i : ℕ) (c : List Float) (counts : List ℕ)
      → length counts ≡ k
      → All (λ a. a < k) assign
      → let out = (accumulate lib d k vectors assign i c counts).1 in
        (sum out ≡ sum counts + length assign) × (length out ≡ k)
  unfolding accumulate
  accumulate-counts vectors [] i c counts e h = (omega arith, e)
  accumulate-counts vectors (a ∷ assign) i c counts e h =
      let (total, size) =
        accumulate-counts vectors assign (suc i) _ (update_at a suc counts)
          (length-update_at a suc counts ∙ e) h.1 in
      (omega (arith, total, sum-update_suc counts a (omega (arith, h.0))), size)

  counts_of : List Float → List Float → ℕ → List ℕ
  counts_of vectors centroids n =
      (accumulate lib d k vectors (lib.knn vectors centroids d n k) 0
        (replicate (length centroids) 0) (replicate k 0)).1

  split_lem :
      (sums : List Float) (counts : List ℕ) (n : ℕ)
      → length counts ≡ k
      → sum counts ≡ n
      → k ≤ n
      → let out = (split_clusters lib.ops sums counts k d).hassign in
        (sum out ≡ n) × (length out ≡ k) × ((t : ℕ) → t < k → 1 ≤ get_or out t 0)
  split_lem sums counts n size total enough =
      let kept = sum-split_clusters lib.ops d sums counts in
      let filled = split_clusters-filled lib.ops d sums counts (omega arith) in
      subst
        (λ m.
          let out = (split_clusters lib.ops sums counts m d).hassign in
          (sum out ≡ n) × (length out ≡ k) × ((t : ℕ) → t < k → 1 ≤ get_or out t 0))
        size (kept.0 ∙ total, kept.1 ∙ size, λ t p. filled.0 t (omega arith))

  -- faiss::knn_L2sqr gives each of the n vectors one of the k centroids.
  abbrev pub KnnAssigns : Type 0
  KnnAssigns =
      (vectors centroids : List Float) (n : ℕ)
      → (length (lib.knn vectors centroids d n k) ≡ n)
        × All (λ a. a < k) (lib.knn vectors centroids d n k)

  -- After a round over at least k vectors the counts of the k clusters add up to the number of
  -- vectors, and no cluster is empty.
  pub round-filled :
      (vectors centroids : List Float) (n : ℕ)
      → KnnAssigns
      → k ≤ n
      → let out = (round lib d k vectors n centroids).hassign in
        (sum out ≡ n) × (length out ≡ k) × ((t : ℕ) → t < k → 1 ≤ get_or out t 0)
  unfolding round counts_of
  round-filled vectors centroids n assigns enough =
      let (each, below) = assigns vectors centroids n in
      let (total, size) =
        accumulate-counts vectors (lib.knn vectors centroids d n k) 0
          (replicate (length centroids) 0) (replicate k 0) (length-replicate k 0) below in
      split_lem _ (counts_of vectors centroids n) n size
        (omega (arith, total, each, sum-replicate_zero k)) enough
