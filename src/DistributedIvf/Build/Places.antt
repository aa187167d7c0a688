-- ===== src/DistributedIvf/Build/Places.antt =====
-- Where build_index puts the inverted list of each centroid.
use native.Mathlib.Nat.{mod-lt}
use dann.Prelude.{
  ℕ, zero, suc, ◌+◌, ◌*◌, ◌/◌, ◌%◌, ◌≤◌, ◌<◌, ◌≡◌, ◌≢◌, refl, ap, ◌∙◌, true, false, List, [], ◌∷◌,
  ◌++◌, append-nil, drop, get_or, update_at, length-update_at, length, ◌==◌, if◌then◌else◌, ==_iff,
  ℤ, arith, Bool-cases, inl, inr, All,
}
use dann.Types.{Float, InvertedList, returned}
use dann.Util.Closest.{closest_from-lt}
use dann.IvfShard.{IndexIvfShard, add_posting}
use dann.IvfShard.Postings.{posting_at, posting_at-add_posting}
use dann.Clustering.Train.{Kernels, iota}
use dann.DistributedIvf.{DistributedIndexIvf}
use dann.DistributedIvf.Build.{
  distance_of, find_closest_optimized, assign_from, fill, distribute_from, index_vectors,
}
use dann.DistributedIvf.Build.Nearest.{AreNearest, assign_from-AreNearest}
use dann.DistributedIvf.Build.Counting.{gather_ids, gather_rows}
use dann.DistributedIvf.Build.Buckets.{get_or-update_at, fill-gather, length-fill}

abbrev extended : InvertedList → InvertedList → InvertedList
extended old p = record {
  vector_ids = old.vector_ids ++ p.vector_ids;
  vectors = old.vectors ++ p.vectors;
}

module _ (n : ℕ) (ds : IndexIvfShard) (positive : 0 < n) where
  -- Shards after the list of centroid k has been given away.
  abbrev handed : InvertedList → ℕ → List IndexIvfShard → List IndexIvfShard
  handed p k shards =
      if length p.vector_ids == 0 then shards else update_at (k % n) (add_posting k p) shards

  length-handed :
      (p : InvertedList) (k : ℕ) (shards : List IndexIvfShard)
      → length (handed p k shards) ≡ length shards
  length-handed p k shards = elim (Bool-cases (length p.vector_ids == 0)) [
    | inl e ↦ rw e
    | inr e ↦ rw e (length-update_at (k % n) (add_posting k p) shards)
  ]

  handed_other :
      (p : InvertedList) (k c j : ℕ) (shards : List IndexIvfShard)
      → length shards ≡ n
      → k ≢ c
      → posting_at (get_or (handed p k shards) j ds) c ≡ posting_at (get_or shards j ds) c
  handed_other p k c j shards e ne = elim (Bool-cases (length p.vector_ids == 0)) [
    | inl z ↦ rw z
    | inr z ↦
        rw (z, get_or-update_at shards (k % n) j (add_posting k p) ds (rw e (mod-lt k positive)))
          (elim (Bool-cases (k % n == j)) [ inl y ↦ rw y (other j) | inr y ↦ rw y ])
  ]
    where
      other :
          (j : ℕ)
          → posting_at (add_posting k p (get_or shards j ds)) c ≡ posting_at (get_or shards j ds) c
      other j =
          let differ : (k == c) ≡ false = ground arith in
          posting_at-add_posting (get_or shards j ds) k c p ∙ rw differ

  handed_self :
      (p : InvertedList) (k : ℕ) (shards : List IndexIvfShard)
      → length shards ≡ n
      → (length p.vector_ids ≡ 0 → p.vectors ≡ [])
      → posting_at (get_or (handed p k shards) (k % n) ds) k
        ≡ extended (posting_at (get_or shards (k % n) ds) k) p
  handed_self p k shards e hollow = elim (Bool-cases (length p.vector_ids == 0)) [
    | inl z ↦
        let none_left : length p.vector_ids ≡ 0 = (==_iff (length p.vector_ids) 0).0 z in
        rw (z, empty p.vector_ids none_left, hollow none_left, append-nil, append-nil)
    | inr z ↦
        let here : (k % n == k % n) ≡ true = ground arith in
        let same : (k == k) ≡ true = ground arith in
        rw (
          z,
          get_or-update_at shards (k % n) (k % n) (add_posting k p) ds (rw e (mod-lt k positive)),
          here,
          posting_at-add_posting (get_or shards (k % n) ds) k k p,
          same,
        )
  ]
    where
      empty : (l : List ℤ) → length l ≡ 0 → l ≡ []
      empty [] h = refl
      empty (x ∷ l) h = absurd (omega arith)

  distribute_from-before :
      (ps : List InvertedList) (k c j : ℕ) (shards : List IndexIvfShard)
      → length shards ≡ n
      → c < k
      → posting_at (get_or (distribute_from n ps k shards) j ds) c
        ≡ posting_at (get_or shards j ds) c
  unfolding distribute_from
  distribute_from-before [] k c j shards e h = refl
  distribute_from-before (p ∷ ps) k c j shards e h =
      distribute_from-before ps (suc k) c j (handed p k shards) (length-handed p k shards ∙ e)
        (omega arith)
      ∙ handed_other p k c j shards e (omega arith)

  -- The list of centroid c is found at shard c % n, behind what the shard had for c.
  distribute_from-lem :
      (ps : List InvertedList) (k i c : ℕ) (shards : List IndexIvfShard) (p : InvertedList)
      → length shards ≡ n
      → k + i ≡ c
      → i < length ps
      → get_or ps i p ≡ p
      → (length p.vector_ids ≡ 0 → p.vectors ≡ [])
      → posting_at (get_or (distribute_from n ps k shards) (c % n) ds) c
        ≡ extended (posting_at (get_or shards (c % n) ds) c) p
  unfolding distribute_from
  distribute_from-lem [] k i c shards p e f h g hollow = absurd (omega arith)
  distribute_from-lem (q ∷ ps) k zero c shards p e f h g hollow =
      let same : c ≡ k = omega arith in
      rw (same, g)
        (distribute_from-before ps (suc k) k (k % n) (handed p k shards)
            (length-handed p k shards ∙ e) (omega arith)
          ∙ handed_self p k shards e hollow)
  distribute_from-lem (q ∷ ps) k (suc i) c shards p e f h g hollow =
      distribute_from-lem ps (suc k) i c (handed q k shards) p (length-handed q k shards ∙ e)
        (omega arith) (omega arith) g hollow
      ∙ rw (handed_other q k c (c % n) shards e (omega arith))

-- A centroid without ids has no rows either.
gather-hollow :
    (d : ℕ) (vectors : List Float) (c : ℕ) (l : List ℕ) (ids : List ℤ) (i : ℕ)
    → length l ≡ length ids
    → length (gather_ids c l ids) ≡ 0
    → gather_rows d vectors c l i ≡ []
unfolding gather_ids gather_rows
gather-hollow d vectors c [] ids i e h = refl
gather-hollow d vectors c (a ∷ l) [] i e h = absurd (omega arith)
gather-hollow d vectors c (a ∷ l) (id ∷ ids) i e h = elim (Bool-cases (a == c)) [
  | inl z ↦ absurd (omega (arith, (rw z at h)))
  | inr z ↦ rw z (gather-hollow d vectors c l ids (suc i) (omega arith) (rw z at h))
]

pub length-assign_from :
    (closest : List Float → ℕ) (vectors : List Float) (d n i : ℕ)
    → length (assign_from closest vectors d n i) ≡ n
unfolding assign_from
length-assign_from closest vectors d zero i = refl
length-assign_from closest vectors d (suc n) i =
    ap suc (length-assign_from closest vectors d n (suc i))

All-assign_from :
    (closest : List Float → ℕ) (vectors : List Float) (d m n i : ℕ)
    → ((y : List Float) → closest y < m)
    → All (λ a. a < m) (assign_from closest vectors d n i)
unfolding assign_from
All-assign_from closest vectors d m zero i h = tt
All-assign_from closest vectors d m (suc n) i h =
    (h (drop (i * d) vectors), All-assign_from closest vectors d m n (suc i) h)

find_closest_optimized-lt :
    (lib : Kernels) (x y : List Float) (d n : ℕ) → 0 < n → find_closest_optimized lib x y d n < n
unfolding find_closest_optimized
find_closest_optimized-lt lib x y d n h = closest_from-lt (distance_of lib x y d) n h

-- Given at least one centroid and d floats for each id, the rest of the build returns, and each vector
-- has been given the first of the centroids nearest to it, or centroid 0 if none is nearer than the
-- largest float. Then the shard c % shard_counts has for centroid c what it had before followed by the
-- ids and the rows of the vectors that c has been given to, in their order.
pub index_vectors-posting_at :
    (lib : Kernels) (s : DistributedIndexIvf) (vectors : List Float) (ids : List ℤ)
    (centroids : List Float) (c : ℕ) (ds : IndexIvfShard)
    → length ids * s.dimension ≤ length vectors
    → length s.shards ≡ s.shard_counts
    → 0 < s.shard_counts
    → c < length centroids / s.dimension
    → (assigned : List ℕ) × (length assigned ≡ length ids)
      × AreNearest lib centroids vectors s.dimension (length centroids / s.dimension) assigned 0
      × (s' : DistributedIndexIvf) × (index_vectors lib s vectors ids centroids ≡ returned s')
      × (posting_at (get_or s'.shards (c % s.shard_counts) ds) c ≡ record {
        vector_ids =
            (posting_at (get_or s.shards (c % s.shard_counts) ds) c).vector_ids
            ++ gather_ids c assigned ids;
        vectors =
            (posting_at (get_or s.shards (c % s.shard_counts) ds) c).vectors
            ++ gather_rows s.dimension vectors c assigned 0;
      })
unfolding index_vectors
index_vectors-posting_at lib s vectors ids centroids c ds room e positive below =
    (assignments, as_many, nearest, built, rw (some_centroid, index_vectors), placed)
  where
    n : ℕ
    n = length centroids / s.dimension

    closest : List Float → ℕ
    closest y = find_closest_optimized lib centroids y s.dimension n

    assignments : List ℕ
    assignments = assign_from closest vectors s.dimension (length ids) 0

    built : DistributedIndexIvf
    built = record s {
      is_trained = true;
      global_centroids = centroids;
      global_centroid_ids = iota n 0;
      shards =
          distribute_from s.shard_counts (fill s.dimension n vectors assignments ids) 0 s.shards;
    }

    some_centroid : (n == 0) ≡ false
    some_centroid = ground arith

    p : InvertedList
    p = record {
      vector_ids = gather_ids c assignments ids;
      vectors = gather_rows s.dimension vectors c assignments 0;
    }

    as_many : length assignments ≡ length ids
    as_many = length-assign_from closest vectors s.dimension (length ids) 0

    nearest : AreNearest lib centroids vectors s.dimension n assignments 0
    nearest = assign_from-AreNearest lib centroids vectors s.dimension n (length ids) 0

    placed :
        posting_at
          (get_or
            (distribute_from s.shard_counts (fill s.dimension n vectors assignments ids) 0 s.shards)
            (c % s.shard_counts)
            ds)
          c
        ≡ extended (posting_at (get_or s.shards (c % s.shard_counts) ds) c) p
    placed =
        distribute_from-lem s.shard_counts ds positive (fill s.dimension n vectors assignments ids)
          0 c c s.shards p e (omega arith)
          (rw (length-fill s.dimension n vectors assignments ids) below)
          (fill-gather s.dimension n vectors assignments ids c p
            (All-assign_from closest vectors s.dimension n (length ids) 0
              (λ y. find_closest_optimized-lt lib centroids y s.dimension n (omega arith)))
            as_many room below)
          (gather-hollow s.dimension vectors c assignments ids 0 as_many)
