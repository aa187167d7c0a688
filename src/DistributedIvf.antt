-- ===== src/DistributedIvf.antt =====
-- src/core/distributed_index_ivf.cpp: an inverted file whose lists are spread over shards. This file
-- has the state and the construction, its children the training sample, the build and the search.
pub mod Numbers
pub mod Sample
pub mod Build
pub mod Query
use dann.Prelude.{
  ℕ, zero, suc, ◌+◌, ◌-◌, ◌*◌, ◌/◌, ◌%◌, min, Bool, true, false, Option, none, some, List, [], ◌∷◌,
  get_or, length, ltb, leb, ◌==◌, if◌then◌else◌, ℤ, pos, negsuc,
}
use dann.Types.{Float, Outcome, returned, undefined}
use dann.IvfShard.{IndexIvfShard, create_shard}

-- A name is the list of its characters. Element i of `shards` is the value at key i of the source's
-- map. `nprobe` has no value until the build, unless the constructor gives one.
pub record DistributedIndexIvf : Type 0 where
  pub name : List ℕ
  pub dimension : ℕ
  pub is_trained : Bool
  pub shard_counts : ℕ
  pub nlist : ℤ
  pub nprobe : Option ℕ
  pub global_centroids : List Float
  pub global_centroid_ids : List ℕ
  pub shards : List IndexIvfShard
  pub nodes : List (List ℕ)

-- `shards_[i] = make_unique<IndexIVFShard>(d, i, nodes_[i % node_size])`
unfoldable pub place_shards : ℕ → List (List ℕ) → ℕ → ℕ → List IndexIvfShard
place_shards d nodes zero i = []
place_shards d nodes (suc n) i =
    create_shard d i (get_or nodes (i % length nodes) []) ∷ place_shards d nodes n (suc i)

-- Both constructors. The assertion compares with the parameter that has been moved from, so only its
-- second half can fail; without nodes `i % node_size` divides by 0.
unfoldable pub create_with :
    List ℕ → ℕ → ℕ → ℤ → Option ℕ → List (List ℕ) → Outcome DistributedIndexIvf
create_with name d shards nlist nprobe nodes =
    if shards == 0
    then undefined
    else if length nodes == 0
    then undefined
    else returned (record {
      name = name;
      dimension = d;
      is_trained = false;
      shard_counts = shards;
      nlist = nlist;
      nprobe = nprobe;
      global_centroids = [];
      global_centroid_ids = [];
      shards = place_shards d nodes shards 0;
      nodes = nodes;
    })

unfoldable pub create : List ℕ → ℕ → ℕ → List (List ℕ) → Outcome DistributedIndexIvf
unfolding create_with
create name d shards nodes = create_with name d shards (negsuc 0) none nodes

unfoldable pub create_tuned : List ℕ → ℕ → ℕ → ℤ → ℕ → List (List ℕ) → Outcome DistributedIndexIvf
unfolding create_with
create_tuned name d shards nlist nprobe nodes = create_with name d shards nlist (some nprobe) nodes
