-- ===== src/Clustering.antt =====
-- src/core/clustering.cpp: k-means. Counts and indices are numbers; an array of k rows of d floats is
-- one flat list.
pub mod Largest
pub mod Split
pub mod Balance
pub mod Train
use dann.Prelude.{
  ℕ, zero, suc, ◌+◌, ◌-◌, ◌*◌, ◌/◌, ◌%◌, max, Bool, true, false, Option, none, some, List, [], ◌∷◌,
  ◌++◌, take, drop, get_or, set, update_at, replicate, length, ltb, ◌==◌, if◌then◌else◌,
}
use dann.Types.{Float, FloatOps}
use dann.Util.{l2_distance}

-- The search for the largest count: `if (cj == -1 || hassign[j] > hassign[cj]) cj = j`.
unfoldable pub largest_from : List ℕ → ℕ → ℕ → Option ℕ → Option ℕ
largest_from hassign zero j cj = cj
largest_from hassign (suc n) j none = largest_from hassign n (suc j) (some j)
largest_from hassign (suc n) j (some c) =
    largest_from hassign n (suc j)
      (some (if ltb (get_or hassign c 0) (get_or hassign j 0) then j else c))

pub record SplitState : Type 0 where
  pub centroids : List Float
  pub hassign : List ℕ
  pub nsplit : ℕ

module _ (ops : FloatOps) where
  -- The small symmetric perturbation of rows i and cj from column j on.
  perturb : ℕ → ℕ → ℕ → ℕ → ℕ → List Float → List Float
  perturb d i cj zero j c = c
  perturb d i cj (suc n) j c = perturb d i cj n (suc j) (
      if j % 2 == 0
      then update_at (cj * d + j) ops.shrink (update_at (i * d + j) ops.grow c)
      else update_at (cj * d + j) ops.grow (update_at (i * d + j) ops.shrink c))

  -- std::copy of row cj over row i
  copy_row : ℕ → ℕ → ℕ → List Float → List Float
  copy_row d i cj c = take (i * d) c ++ take d (drop (cj * d) c) ++ drop (i * d + d) c

  -- The body for an empty cluster i whose points come from cluster cj. With cj = i the second
  -- assignment reads what the first has written.
  split_with : ℕ → ℕ → ℕ → SplitState → SplitState
  unfolding perturb copy_row
  split_with d i cj s =
      let half = get_or s.hassign cj 0 / 2 in
      let hassign' = set s.hassign i half in
      record {
        centroids = perturb d i cj d 0 (copy_row d i cj s.centroids);
        hassign = set hassign' cj (get_or hassign' cj 0 - half);
        nsplit = suc s.nsplit;
      }

  -- `assert(cj >= 0)` is the case `none`, which only an empty array has.
  split_at : ℕ → ℕ → SplitState → SplitState
  unfolding split_with
  split_at d i s =
      if get_or s.hassign i 0 == 0
      then elim (largest_from s.hassign (length s.hassign) 0 none) [
        | none ↦ s
        | some cj ↦ split_with d i cj s
      ]
      else s

  split_from : ℕ → ℕ → ℕ → SplitState → SplitState
  split_from d zero i s = s
  split_from d (suc n) i s = split_from d n (suc i) (split_at d i s)

  -- The counts array has k elements.
  unfoldable pub split_clusters : List Float → List ℕ → ℕ → ℕ → SplitState
  unfolding split_from split_at
  split_clusters centroids hassign k d =
      split_from d k 0 (record { centroids = centroids; hassign = hassign; nsplit = 0 })
