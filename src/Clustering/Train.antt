-- ===== src/Clustering/Train.antt =====
-- Clustering::train. std::shuffle with a seeded std::mt19937_64 and faiss::knn_L2sqr are parameters.
pub mod Rounds
pub mod Start
use dann.Prelude.{
  ℕ, zero, suc, ◌+◌, ◌-◌, ◌*◌, ◌/◌, max, Bool, true, false, Option, none, some, List, [], ◌∷◌, ◌++◌,
  take, drop, get_or, get_elem?, update_at, replicate, length, ltb, ◌==◌, if◌then◌else◌,
}
use dann.Types.{Float, FloatOps}
use dann.Util.{l2_distance}
use dann.Clustering.{SplitState, split_clusters}

pub record ClusteringParameters : Type 0 where
  pub niter : ℕ
  pub int_centroids : Bool
  pub min_points_per_centroids : ℕ
  pub max_points_per_centroids : ℕ
  pub max_sample_ratio : Float
  pub seed : ℕ
  pub nredo : ℕ

-- The defaults: 25 rounds, a fixed seed, one pass; 0x3e6147ae is 0.22f.
abbrev pub default_parameters : ClusteringParameters
default_parameters = record {
  niter = 25;
  int_centroids = false;
  min_points_per_centroids = 39;
  max_points_per_centroids = 256;
  max_sample_ratio = 0x3e6147ae;
  seed = 1234;
  nredo = 1;
}

-- What the training calls of other libraries.
pub record Kernels : Type 0 where
  pub ops : FloatOps
  pub fvec_l2sqr : List Float → List Float → Float
  -- knn vectors centroids d n k: for each of the n vectors the index of its nearest centroid
  pub knn : List Float → List Float → ℕ → ℕ → ℕ → List ℕ
  -- shuffle seed indices
  pub shuffle : ℕ → List ℕ → List ℕ

-- std::iota
unfoldable pub iota : ℕ → ℕ → List ℕ
iota zero i = []
iota (suc n) i = i ∷ iota n (suc i)

-- std::vector::resize, which pads with 0.0f
unfoldable pub resize : ℕ → List Float → List Float
resize n c = take n (c ++ replicate n 0)

unfoldable pub write_row : ℕ → ℕ → List Float → List Float → List Float
write_row d i row c = take (i * d) c ++ row ++ drop (i * d + d) c

-- The k first centroids. `none` is a read of local_indices past its end.
unfoldable pub start_from : List Float → List ℕ → ℕ → ℕ → ℕ → List Float → Option (List Float)
start_from vectors indices d zero i c = some c
start_from vectors indices d (suc n) i c = elim (get_elem? indices i) [
  | none ↦ none
  | some x ↦
      start_from vectors indices d n (suc i) (write_row d i (take d (drop (x * d) vectors)) c)
]

module _ (lib : Kernels) (d k : ℕ) where
  -- centroids[d * a + j] += vectors[d * i + j]
  add_row : List Float → ℕ → ℕ → ℕ → ℕ → List Float → List Float
  add_row vectors a i zero j c = c
  add_row vectors a i (suc n) j c =
      add_row vectors a i n (suc j)
        (update_at (d * a + j) (λ x. lib.ops.add x (get_or vectors (d * i + j) 0)) c)

  unfoldable pub accumulate : List Float → List ℕ → ℕ → List Float → List ℕ → List Float × List ℕ
  unfolding add_row
  accumulate vectors [] i c counts = (c, counts)
  accumulate vectors (a ∷ assign) i c counts =
      accumulate vectors assign (suc i) (add_row vectors a i d 0 c) (update_at a suc counts)

  -- centroids[i * d + j] /= count
  divide_row : ℕ → ℕ → ℕ → ℕ → List Float → List Float
  divide_row count i zero j c = c
  divide_row count i (suc n) j c =
      divide_row count i n (suc j) (update_at (i * d + j) (λ x. lib.ops.div_count x count) c)

  divide_from : List ℕ → ℕ → ℕ → List Float → List Float
  unfolding divide_row
  divide_from counts zero i c = c
  divide_from counts (suc n) i c =
      let count = get_or counts i 0 in
      divide_from counts n (suc i) (if count == 0 then c else divide_row count i d 0 c)

  -- steps 2.1 to 2.3 of a round
  unfoldable pub round : List Float → ℕ → List Float → SplitState
  unfolding divide_from
  round vectors n centroids =
      let assign = lib.knn vectors centroids d n k in
      let (sums, counts) =
        accumulate vectors assign 0 (replicate (length centroids) 0) (replicate k 0) in
      split_clusters lib.ops (divide_from counts k 0 sums) counts k d

  max_change_from : List Float → List Float → ℕ → ℕ → Float → Float
  max_change_from prev c zero i m = m
  max_change_from prev c (suc n) i m =
      max_change_from prev c n (suc i)
        (max m (l2_distance lib.fvec_l2sqr (drop (i * d) prev) (drop (i * d) c) d))

  -- 1e-6f
  abbrev convergence_threshold : Float
  convergence_threshold = 0x358637bd

  unfoldable pub iterate : List Float → ℕ → ℕ → ℕ → List Float → List Float
  unfolding max_change_from
  iterate vectors n zero t c = c
  iterate vectors n (suc rounds) t c =
      let c' : List Float = (round vectors n c).centroids in
      let rest : List Float = iterate vectors n rounds (suc t) c' in
      if ltb 0 t
      then (if ltb (max_change_from c c' k 0 0) convergence_threshold then c' else rest)
      else rest

  -- One pass of the outer loop, with the indices and the centroids that it leaves.
  unfoldable pub redo_pass :
      ClusteringParameters → List Float → ℕ → List ℕ → List Float → Option (List ℕ × List Float)
  redo_pass params vectors n indices c =
      let shuffled = lib.shuffle params.seed indices in
      elim (start_from vectors shuffled d k 0 (resize (d * k) c)) [
        | none ↦ none
        | some c₀ ↦ some (shuffled, iterate vectors n params.niter 0 c₀)
      ]

  unfoldable pub redo_from :
      ClusteringParameters → List Float → ℕ → ℕ → List ℕ → List Float → Option (List Float)
  redo_from params vectors n zero indices c = some c
  redo_from params vectors n (suc redos) indices c = elim (redo_pass params vectors n indices c) [
    | none ↦ none
    | some (indices', c') ↦ redo_from params vectors n redos indices' c'
  ]

  -- The centroids after training, from those before (none for a new Clustering). A failing assertion
  -- counts as undefined, like the read past the end; so does the division by a dimension of 0.
  unfoldable pub train : ClusteringParameters → List Float → ℕ → List Float → Option (List Float)
  train params vectors n centroids =
      let passes = redo_from params vectors n params.nredo (iota n 0) centroids in
      if d == 0 then none else if length vectors / d == n then passes else none
