-- ===== src/Clustering/Balance.antt =====
-- split_clusters as a whole: no point is lost, and no cluster stays empty.
use dann.Prelude.{
  ℕ, zero, suc, ◌+◌, ◌≤◌, ◌<◌, ◌≡◌, refl, ◌∙◌, List, get_or, length, ◌==◌, arith, Bool-cases, inl,
  inr, dec_le, sum, ◌⊎◌,
}
use dann.Types.{Float, FloatOps}
use dann.Clustering.{SplitState, split_at, split_from, split_clusters}
use dann.Clustering.Largest.{IsLargest, largest_from-IsLargest, IsLargest-two}
use dann.Clustering.Split.{
  count_empty, halved, sum-halved, length-halved, count_empty-halved, halved_pos, count_empty_none,
}

module _ (ops : FloatOps) (d : ℕ) where
  -- A round leaves the state alone or halves a largest cluster.
  split_at-cases :
      (i : ℕ) (s : SplitState)
      → i < length s.hassign
      → ((1 ≤ get_or s.hassign i 0) × (split_at ops d i s ≡ s))
        ⊎ ((cj : ℕ) × (get_or s.hassign i 0 ≡ 0)
            × IsLargest s.hassign (length s.hassign) cj
            × ((split_at ops d i s).hassign ≡ halved s.hassign i cj)
            × ((split_at ops d i s).nsplit ≡ suc s.nsplit))
  unfolding split_at
  split_at-cases i s inside = elim (Bool-cases (get_or s.hassign i 0 == 0)) [
    | inl empty ↦
        let (cj, found, largest) =
          largest_from-IsLargest s.hassign (length s.hassign) (omega arith) in
        inr (cj, ground arith, largest, rw (empty, found), rw (empty, found))
    | inr busy ↦ inl (ground arith, rw busy)
  ]

  -- What every round keeps.
  record Keeps (total k : ℕ) (s : SplitState) : Type 0 where
    points : sum s.hassign ≡ total
    clusters : length s.hassign ≡ k

  split_at-Keeps :
      (total k i : ℕ) (s : SplitState)
      → i < k
      → Keeps total k s
      → Keeps total k (split_at ops d i s)
  split_at-Keeps total k i s below h =
      let inside : i < length s.hassign = omega (arith, h.clusters) in
      elim (split_at-cases i s inside) [
        | inl (busy, same) ↦ rw same h
        | inr (cj, empty, largest, counts, _) ↦ record {
          points = rw counts (sum-halved s.hassign i cj inside largest.inside empty ∙ h.points);
          clusters =
              rw counts (length-halved s.hassign i cj inside largest.inside empty ∙ h.clusters);
        }
      ]

  split_from-Keeps :
      (total k n i : ℕ) (s : SplitState)
      → i + n ≡ k
      → Keeps total k s
      → Keeps total k (split_from ops d n i s)
  unfolding split_from
  split_from-Keeps total k zero i s e h = h
  split_from-Keeps total k (suc n) i s e h =
      split_from-Keeps total k n (suc i) (split_at ops d i s) (omega arith)
        (split_at-Keeps total k i s (omega arith) h)

  -- With enough points: clusters before i are not empty, and the splits and the empty clusters
  -- together are as many as the empty clusters at the start.
  record Spreads (empties i : ℕ) (s : SplitState) : Type 0 where
    filled : (t : ℕ) → t < i → 1 ≤ get_or s.hassign t 0
    counted : s.nsplit + count_empty s.hassign ≡ empties

  split_at-Spreads :
      (total k empties i : ℕ) (s : SplitState)
      → i < k
      → k ≤ total
      → Keeps total k s
      → Spreads empties i s
      → Spreads empties (suc i) (split_at ops d i s)
  split_at-Spreads total k empties i s below enough h g =
      let inside : i < length s.hassign = omega (arith, h.clusters) in
      elim (split_at-cases i s inside) [
        | inl (busy, same) ↦
            rw same (record { filled = λ t p. filled_to t p busy; counted = g.counted })
        | inr (cj, empty, largest, counts, splits) ↦
            let two =
              IsLargest-two s.hassign i cj largest inside empty
                (omega (arith, h.points, h.clusters)) in
            record {
              filled = λ t p.
                  rw counts
                    (halved_pos s.hassign i cj inside largest.inside empty two t (before t p));
              counted =
                  rw (counts, splits)
                    (omega (
                      arith,
                      count_empty-halved s.hassign i cj inside largest.inside empty two,
                      g.counted,
                    ));
            }
      ]
    where
      before : (t : ℕ) → t < suc i → (i ≡ t) ⊎ (1 ≤ get_or s.hassign t 0)
      before t p = elim (dec_le i t) [
        | yes q ↦ inl (omega arith)
        | no q ↦ inr (g.filled t (omega arith))
      ]

      filled_to : (t : ℕ) → t < suc i → 1 ≤ get_or s.hassign i 0 → 1 ≤ get_or s.hassign t 0
      filled_to t p busy = elim (before t p) [ inl e ↦ rw (← e) busy | inr f ↦ f ]

  split_from-Spreads :
      (total k empties n i : ℕ) (s : SplitState)
      → i + n ≡ k
      → k ≤ total
      → Keeps total k s
      → Spreads empties i s
      → Spreads empties k (split_from ops d n i s)
  unfolding split_from
  split_from-Spreads total k empties zero i s e enough h g =
      let same : i ≡ k = omega arith in rw (← same) g
  split_from-Spreads total k empties (suc n) i s e enough h g =
      split_from-Spreads total k empties n (suc i) (split_at ops d i s) (omega arith) enough
        (split_at-Keeps total k i s (omega arith) h)
        (split_at-Spreads total k empties i s (omega arith) enough h g)

  -- split_clusters moves points between clusters: their total and the number of clusters stay.
  pub sum-split_clusters :
      (centroids : List Float) (hassign : List ℕ)
      → let out = (split_clusters ops centroids hassign (length hassign) d).hassign in
        (sum out ≡ sum hassign) × (length out ≡ length hassign)
  unfolding split_clusters
  sum-split_clusters c hs =
      let h =
        split_from-Keeps (sum hs) (length hs) (length hs) 0 _ (omega arith)
          (record { points = refl; clusters = refl }) in
      (h.points, h.clusters)

  -- If there are at least as many points as clusters, no cluster is empty afterwards, and there has
  -- been exactly one split for each cluster that was.
  pub split_clusters-filled :
      (centroids : List Float) (hassign : List ℕ)
      → length hassign ≤ sum hassign
      → ((t : ℕ)
          → t < length hassign
          → 1 ≤ get_or (split_clusters ops centroids hassign (length hassign) d).hassign t 0)
        × ((split_clusters ops centroids hassign (length hassign) d).nsplit ≡ count_empty hassign)
  unfolding split_clusters
  split_clusters-filled c hs enough =
      let start : Keeps (sum hs) (length hs) (record { centroids = c; hassign = hs; nsplit = 0 }) =
        record { points = refl; clusters = refl } in
      let h = split_from-Keeps (sum hs) (length hs) (length hs) 0 _ (omega arith) start in
      let g =
        split_from-Spreads (sum hs) (length hs) (count_empty hs) (length hs) 0 _ (omega arith)
          enough start (record { filled = λ t p. absurd (omega arith); counted = omega arith }) in
      (
        g.filled,
        omega
            (arith, g.counted, count_empty_none _ (λ t p. g.filled t (omega (arith, h.clusters)))),
      )
