-- ===== src/DistributedIvf/Build/Few.antt =====
-- The build with fewer vectors than lists.
use dann.Prelude.{
  ℕ, ◌*◌, ◌/◌, ◌≤◌, ◌<◌, ◌≡◌, refl, min, leb, true, false, none, List, [], length, ◌==◌, ℤ, negsuc,
  Perm, arith,
}
use dann.Types.{Float, undefined}
use dann.Clustering.Train.{Kernels, default_parameters, train}
use dann.Clustering.Train.Start.{train-few_vectors}
use dann.DistributedIvf.{DistributedIndexIvf}
use dann.DistributedIvf.Numbers.{get_nlist, get_nlist_few}
use dann.DistributedIvf.Sample.{sample_training_vectors}
use dann.DistributedIvf.Build.{lists_for, build_index}

sample_all :
    (draws : ℕ → ℕ) (vectors : List Float) (d n : ℕ)
    → length vectors / d ≤ n
    → sample_training_vectors draws vectors d n ≡ vectors
unfolding sample_training_vectors
sample_all draws vectors d n h =
    let whole : min n (length vectors / d) ≡ length vectors / d = omega arith in
    let test : leb (length vectors / d) (length vectors / d) ≡ true = ground arith in
    rw (whole, test)

-- A first build of an index whose number of lists is left to get_nlist, with at most 61 vectors but
-- at least one, trains more centroids than there are vectors and reads out of bounds.
pub build_index_few :
    (lib : Kernels) (shuffled : (seed : ℕ) (l : List ℕ) → Perm (lib.shuffle seed l) l)
    (draws : ℕ → ℕ) (s : DistributedIndexIvf) (vectors : List Float) (ids : List ℤ) (m : ℕ)
    → s.nlist ≡ negsuc m
    → 0 < s.dimension
    → length vectors / s.dimension ≡ length ids
    → 0 < length ids
    → length ids ≤ 61
    → build_index lib draws s vectors ids ≡ undefined
unfolding build_index lists_for
build_index_few lib shuffled draws s vectors ids m e dim as_many some_id few =
    rw (e, some_dimension) (rw (as_many, same, many) (rw (whole, as_many, too_few)))
  where
    more : length ids < get_nlist (length ids)
    more = get_nlist_few (length ids) some_id few

    some_dimension : (s.dimension == 0) ≡ false
    some_dimension = ground arith

    same : (length ids == length ids) ≡ true
    same = ground arith

    many : (length ids == 0) ≡ false
    many = ground arith

    whole :
        sample_training_vectors draws vectors s.dimension
          (min (get_nlist (length ids) * 64) (length ids))
        ≡ vectors
    whole = sample_all draws vectors s.dimension _ (omega (arith, more, as_many))

    too_few :
        train lib s.dimension (get_nlist (length ids)) default_parameters vectors (length ids) []
        ≡ none
    too_few =
        train-few_vectors lib s.dimension (get_nlist (length ids)) shuffled default_parameters
          vectors (length ids) 0 [] dim as_many more refl
