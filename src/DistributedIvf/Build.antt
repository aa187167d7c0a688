-- ===== src/DistributedIvf/Build.antt =====
-- build_index: training, assignment of each vector to its nearest centroid, a counting sort into one
-- inverted list per centroid, and the distribution of the lists to the shards.
pub mod Counting
pub mod Buckets
pub mod Nearest
pub mod Places
pub mod Few
use dann.Prelude.{
  ℕ, zero, suc, ◌+◌, ◌-◌, ◌*◌, ◌/◌, ◌%◌, min, Bool, true, false, Option, none, some, List, [], ◌∷◌,
  ◌++◌, take, drop, get_or, set, update_at, replicate, length, map, ltb, ◌==◌, if◌then◌else◌, ℤ,
  pos, negsuc,
}
use dann.Types.{
  Float, FloatOps, InvertedList, Outcome, returned, undefined, of_option, ◌>>=◌, float_max,
}
use dann.Util.{closest_from, l2_distance}
use dann.IvfShard.{IndexIvfShard, add_posting}
use dann.Clustering.Train.{Kernels, default_parameters, iota, write_row, train}
use dann.DistributedIvf.{DistributedIndexIvf}
use dann.DistributedIvf.Numbers.{get_nlist, determine_nprobe, default_recall}
use dann.DistributedIvf.Sample.{sample_training_vectors}

-- (c[0]-y[0])² + ... + (c[3]-y[3])², summed from the left
unfoldable pub four_squares : FloatOps → List Float → List Float → Float
four_squares ops c y =
    let square = λ (j : ℕ).
      ops.mul (ops.sub (get_or c j 0) (get_or y j 0)) (ops.sub (get_or c j 0) (get_or y j 0)) in
    ops.add (ops.add (ops.add (square 0) (square 1)) (square 2)) (square 3)

-- The distance of row i in each of the three loops of find_closest_optimized.
unfoldable pub distance_of : Kernels → List Float → List Float → ℕ → ℕ → Float
unfolding four_squares
distance_of lib x y d i =
    if d == 4
    then four_squares lib.ops (drop (i * d) x) y
    else if d == 8
    then lib.ops.add (lib.ops.add 0 (four_squares lib.ops (drop (i * d) x) y))
        (four_squares lib.ops (drop 4 (drop (i * d) x)) (drop 4 y))
    else l2_distance lib.fvec_l2sqr (drop (i * d) x) y d

unfoldable pub find_closest_optimized : Kernels → List Float → List Float → ℕ → ℕ → ℕ
find_closest_optimized lib x y d n = closest_from (distance_of lib x y d) n 0 float_max 0

-- The nearest centroid of vector i and of the n - 1 after it.
unfoldable pub assign_from : (List Float → ℕ) → List Float → ℕ → ℕ → ℕ → List ℕ
assign_from closest vectors d zero i = []
assign_from closest vectors d (suc n) i =
    closest (drop (i * d) vectors) ∷ assign_from closest vectors d n (suc i)

-- ++centroid_counts[centroid]
unfoldable pub count_from : List ℕ → List ℕ → List ℕ
count_from [] counts = counts
count_from (a ∷ assignments) counts = count_from assignments (update_at a suc counts)

-- An inverted list of its final size, filled with zeros.
unfoldable pub presized : ℕ → ℕ → InvertedList
presized d c = record { vector_ids = replicate c (pos 0); vectors = replicate (c * d) 0 }

pub record Filling : Type 0 where
  pub cursor : List ℕ
  pub postings : List InvertedList

unfoldable pub write_posting : ℕ → ℕ → List Float → ℤ → InvertedList → InvertedList
write_posting d at row id p = record {
  vector_ids = set p.vector_ids at id;
  vectors = write_row d at row p.vectors;
}

-- The second pass, from vector i on.
unfoldable pub place_from : ℕ → List Float → List ℕ → List ℤ → ℕ → Filling → Filling
unfolding write_posting
place_from d vectors (a ∷ assignments) (id ∷ ids) i b =
    place_from d vectors assignments ids (suc i) (record {
      cursor = update_at a suc b.cursor;
      postings =
          update_at a (write_posting d (get_or b.cursor a 0) (take d (drop (i * d) vectors)) id)
            b.postings;
    })
place_from d vectors _ _ i b = b

-- Both passes over the assignments to n centroids.
unfoldable pub fill : ℕ → ℕ → List Float → List ℕ → List ℤ → List InvertedList
unfolding count_from presized place_from
fill d n vectors assignments ids =
    (place_from d vectors assignments ids 0 (record {
      cursor = replicate n 0;
      postings = map (presized d) (count_from assignments (replicate n 0));
    })).postings

-- The lists of centroid c and of those after it go to the shards; empty ones are passed over.
unfoldable pub distribute_from : ℕ → List InvertedList → ℕ → List IndexIvfShard → List IndexIvfShard
distribute_from shard_counts [] c shards = shards
distribute_from shard_counts (p ∷ postings) c shards =
    distribute_from shard_counts postings (suc c) (
      if length p.vector_ids == 0
      then shards
      else update_at (c % shard_counts) (add_posting c p) shards)

-- The number of lists: the one that was given, or one for the number of vectors.
unfoldable pub lists_for : ℤ → ℕ → ℕ
lists_for (pos n) num_vectors = n
lists_for (negsuc n) num_vectors = get_nlist num_vectors

module _ (lib : Kernels) where
  -- After the training. Without a centroid the counts would be written out of bounds.
  unfoldable pub index_vectors :
      DistributedIndexIvf → List Float → List ℤ → List Float → Outcome DistributedIndexIvf
  unfolding fill distribute_from
  index_vectors s vectors ids centroids =
      let n = length centroids / s.dimension in
      let assignments =
        assign_from (λ y. find_closest_optimized lib centroids y s.dimension n) vectors s.dimension
          (length ids) 0 in
      if n == 0
      then undefined
      else returned (record s {
        is_trained = true;
        global_centroids = centroids;
        global_centroid_ids = iota n 0;
        shards =
            distribute_from s.shard_counts (fill s.dimension n vectors assignments ids) 0 s.shards;
      })

  -- A failing assertion counts as undefined.
  unfoldable pub build_index :
      (ℕ → ℕ) → DistributedIndexIvf → List Float → List ℤ → Outcome DistributedIndexIvf
  unfolding lists_for
  build_index draws s vectors ids =
      let lists = lists_for s.nlist (length ids) in
      let s' = record s {
        nlist = pos lists;
        nprobe = some (determine_nprobe lists default_recall);
      } in
      let sample =
        sample_training_vectors draws vectors s.dimension (min (lists * 64) (length ids)) in
      if s.dimension == 0
      then undefined
      else if length vectors / s.dimension == length ids
      then (if length ids == 0
          then returned
              (record s' { global_centroids = []; global_centroid_ids = []; is_trained = false })
          else of_option (
              train lib s.dimension lists default_parameters sample (length sample / s.dimension)
                [])
            >>= index_vectors s' vectors ids)
      else undefined
