-- ===== src/Examples/Clusters.antt =====
-- Splitting of empty clusters, and the training over a trivial kernel.
use mathlib.Core.List.Perm
use dann.Prelude.{
  ℕ, zero, suc, ◌+◌, ◌*◌, ◌/◌, ◌≤◌, ◌<◌, ◌≡◌, refl, List, [], ◌∷◌, get_or, length, replicate,
  length-replicate, sum, arith, All,
}
use dann.Types.{FloatOps}
use dann.Clustering.{split_clusters, largest_from}
use dann.Clustering.Balance.{split_clusters-filled}
use dann.Clustering.Train.{Kernels, round}
use dann.Clustering.Train.Rounds.{KnnAssigns, round-filled}

abbrev plain_ops : FloatOps
plain_ops = record {
  add = λ a b. a + b;
  sub = λ a b. a;
  mul = λ a b. a * b;
  div_count = λ a n. a / n;
  grow = λ a. a;
  shrink = λ a. a;
}

-- Every vector goes to centroid 0.
abbrev pub plain : Kernels
plain = record {
  ops = plain_ops;
  fvec_l2sqr = λ x y. 0;
  knn = λ vectors centroids d n k. replicate n 0;
  shuffle = λ seed l. l;
}

abbrev counts : List ℕ
counts = 0 ∷ 5 ∷ 0 ∷ 1 ∷ []

split_runs : (split_clusters plain_ops [] counts 4 0).hassign ≡ 2 ∷ 2 ∷ 1 ∷ 1 ∷ []
unfolding split_clusters largest_from
split_runs = refl

split_clusters-filled_example :
    ((t : ℕ) → t < 4 → 1 ≤ get_or (split_clusters plain_ops [] counts 4 0).hassign t 0)
    × ((split_clusters plain_ops [] counts 4 0).nsplit ≡ 2)
split_clusters-filled_example = split_clusters-filled plain_ops 0 [] counts (omega arith)

zero-All : (n : ℕ) → All (λ a. a < 2) (replicate n 0)
zero-All zero = tt
zero-All (suc n) = (omega arith, zero-All n)

plain-KnnAssigns : KnnAssigns plain 1 2
plain-KnnAssigns vectors centroids n = (length-replicate n 0, zero-All n)

round-filled_example :
    let out = (round plain 1 2 (3 ∷ 4 ∷ 5 ∷ []) 3 (1 ∷ 2 ∷ [])).hassign in
    (sum out ≡ 3) × (length out ≡ 2) × ((t : ℕ) → t < 2 → 1 ≤ get_or out t 0)
round-filled_example =
    round-filled plain 1 2 (3 ∷ 4 ∷ 5 ∷ []) (1 ∷ 2 ∷ []) 3 plain-KnnAssigns (omega arith)
