-- ===== src/Ranking/Nearest.antt =====
-- What a bounded search promises: the `k` nearest candidates. For every distance x the result holds
-- all candidates within x, or k of them if they are more; that is independent of how ties are broken.
use mathlib.Core.List.{reverse_perm, perm_middle, perm_append_comm}
use mathlib.Core.List.Perm
use dann.Prelude.{
  ℕ, suc, ◌+◌, ◌≤◌, ◌<◌, ◌≡◌, refl, min, some, List, [], ◌∷◌, ◌++◌, reverse, append-nil,
  append_assoc, Perm, All, ltb, length, length-append, length-reverse, arith, Bool-cases, inl, inr,
}
use dann.Ranking.{push, offer, offer_all}
use dann.Ranking.Laws.{
  count_le, IsDescending, IsAscending, count_le-append, count_le-le-length, count_le_full,
  push-IsDescending, push-perm, length-push, count_le-push, reverse-IsAscending, count_le-reverse,
}

module _ {A : Type 0} (key : A → ℕ) (k : ℕ) where
  -- `result` is made of the k candidates of least distance; `left` are the others.
  pub record IsNearest (candidates result : List A) : Type 0 where
    pub counts : (x : ℕ) → count_le key x result ≡ min k (count_le key x candidates)
    pub size : length result ≡ min k (length candidates)
    pub left : List A
    pub split : Perm (result ++ left) candidates

  -- The queue of a bounded search after the candidates.
  pub record Holds (candidates q : List A) : Type 0 where
    pub descending : IsDescending key q
    pub nearest : IsNearest candidates q

module _ {A : Type 0} (key : A → ℕ) (k : ℕ) where
  pub empty-IsNearest : IsNearest key k [] []
  empty-IsNearest = record {
    counts = λ x. omega arith;
    size = omega arith;
    left = [];
    split = Perm.nil;
  }

  pub empty-Holds : Holds key k [] []
  empty-Holds = record { descending = tt; nearest = empty-IsNearest }

  module _ (e : A) (cs q : List A) (h : IsNearest key k cs q) where
    -- there is room
    push-IsNearest : length q < k → IsNearest key k (e ∷ cs) (push key e q)
    push-IsNearest room = record {
      counts = λ x. ground (arith, count_le-push key x e q, h.counts x, count_le-le-length key x q);
      size = omega (arith, length-push key e q, h.size);
      left = h.left;
      split = Perm.trans (Perm.append_right h.left (push-perm key e q)) (Perm.cons e h.split);
    }

    -- the candidate is no nearer than the farthest one that is held
    skip-IsNearest :
        (t : A)
        → All (λ b. key b ≤ key t) q
        → key t ≤ key e
        → k ≤ length q
        → IsNearest key k (e ∷ cs) q
    skip-IsNearest t below far full = record {
      counts = λ x.
          ground
            (arith, h.counts x, h.size, λ (p : key t ≤ x). count_le_full key x (key t) q p below);
      size = omega (arith, h.size);
      left = e ∷ h.left;
      split = Perm.trans (perm_middle q h.left) (Perm.cons e h.split);
    }

  -- the candidate takes the place of the farthest one
  replace-IsNearest :
      (e t : A) (cs q : List A)
      → IsNearest key k cs (t ∷ q)
      → All (λ b. key b ≤ key t) q
      → key e < key t
      → k ≤ suc (length q)
      → IsNearest key k (e ∷ cs) (push key e q)
  replace-IsNearest e t cs q h below near full = record {
    counts = λ x. ground (
      arith,
      count_le-push key x e q,
      h.counts x,
      h.size,
      count_le-le-length key x q,
      λ (p : key t ≤ x). count_le_full key x (key t) q p below,
    );
    size = omega (arith, length-push key e q, h.size);
    left = t ∷ h.left;
    split =
        Perm.trans (Perm.append_right (t ∷ h.left) (push-perm key e q))
          (Perm.cons e (Perm.trans (perm_middle q h.left) h.split));
  }

  pub offer_lem :
      (e : A) (cs q : List A)
      → 0 < k
      → Holds key k cs q
      → (q' : List A) × (offer key k e q ≡ some q') × Holds key k (e ∷ cs) q'
  unfolding offer
  offer_lem e cs [] pos h = (
    e ∷ [],
    ground arith,
    record { descending = (tt, tt); nearest = push-IsNearest e cs [] h.nearest pos },
  )
  offer_lem e cs (t ∷ q) pos h = elim (Bool-cases (ltb (length (t ∷ q)) k)) [
    | inl room ↦ (
      push key e (t ∷ q),
      rw (room, offer),
      record {
        descending = push-IsDescending key e (t ∷ q) h.descending;
        nearest = push-IsNearest e cs (t ∷ q) h.nearest (ground arith);
      },
    )
    | inr full ↦ elim (Bool-cases (ltb (key e) (key t))) [
      | inl near ↦ (
        push key e q,
        rw (full, near, offer),
        record {
          descending = push-IsDescending key e q h.descending.1;
          nearest =
              replace-IsNearest e t cs q h.nearest h.descending.0 (ground arith) (ground arith);
        },
      )
      | inr far ↦ (
        t ∷ q,
        rw (full, far, offer),
        record {
          descending = h.descending;
          nearest =
              skip-IsNearest e cs (t ∷ q) h.nearest t (omega arith, h.descending.0) (ground arith)
                (ground arith);
        },
      )
    ]
  ]

  -- The candidates after those of `es`.
  abbrev seen : List A → List A → List A
  seen [] cs = cs
  seen (e ∷ es) cs = seen es (e ∷ cs)

  seen-perm : (es cs : List A) → Perm (seen es cs) (es ++ cs)
  seen-perm [] cs = Perm.rfl
  seen-perm (e ∷ es) cs = Perm.trans (seen-perm es (e ∷ cs)) (perm_middle es cs)

  count_le-seen :
      (x : ℕ) (es cs : List A) → count_le key x (seen es cs) ≡ count_le key x es + count_le key x cs
  count_le-seen x [] cs = omega arith
  count_le-seen x (e ∷ es) cs = omega (arith, count_le-seen x es (e ∷ cs))

  length-seen : (es cs : List A) → length (seen es cs) ≡ length es + length cs
  length-seen [] cs = omega arith
  length-seen (e ∷ es) cs = omega (arith, length-seen es (e ∷ cs))

  offer_all-seen :
      (es cs q : List A)
      → 0 < k
      → Holds key k cs q
      → (q' : List A) × (offer_all key k es q ≡ some q') × Holds key k (seen es cs) q'
  unfolding offer_all
  offer_all-seen [] cs q pos h = (q, refl, h)
  offer_all-seen (e ∷ es) cs q pos h =
      let (q₁, step, h₁) = offer_lem e cs q pos h in
      let (q₂, rest, h₂) = offer_all-seen es (e ∷ cs) q₁ pos h₁ in
      (q₂, rw (step, offer_all) rest, h₂)

  -- A search whose k is positive runs to its end, and the queue holds the k nearest.
  pub offer_all_lem :
      (es cs q : List A)
      → 0 < k
      → Holds key k cs q
      → (q' : List A) × (offer_all key k es q ≡ some q') × Holds key k (es ++ cs) q'
  offer_all_lem es cs q pos h =
      let (q', run, h') = offer_all-seen es cs q pos h in
      (
        q',
        run,
        record {
          descending = h'.descending;
          nearest = record {
            counts = λ x.
                omega
                  (arith, h'.nearest.counts x, count_le-seen x es cs, count_le-append key x es cs);
            size = omega (arith, h'.nearest.size, length-seen es cs, length-append es cs);
            left = h'.nearest.left;
            split = Perm.trans h'.nearest.split (seen-perm es cs);
          };
        },
      )

  -- The k nearest of a part may stand for the part.
  pub merge-IsNearest :
      (part best others result : List A)
      → IsNearest key k part best
      → IsNearest key k (best ++ others) result
      → IsNearest key k (part ++ others) result
  merge-IsNearest part best others result p r = record {
    counts = λ x. omega (
      arith,
      p.counts x,
      r.counts x,
      count_le-append key x part others,
      count_le-append key x best others,
    );
    size = omega (arith, p.size, r.size, length-append part others, length-append best others);
    left = r.left ++ p.left;
    split = Perm.trans whole (Perm.trans (Perm.append_left best swapped) parts);
  }
    where
      whole : Perm (result ++ (r.left ++ p.left)) (best ++ (others ++ p.left))
      whole = simp append_assoc at (Perm.append_right p.left r.split)

      swapped : Perm (others ++ p.left) (p.left ++ others)
      swapped = perm_append_comm others p.left

      parts : Perm (best ++ (p.left ++ others)) (part ++ others)
      parts = rw append_assoc at (Perm.append_right others p.split)

  -- The queue, emptied and reversed, is the result.
  pub reverse-IsNearest :
      (cs q : List A)
      → Holds key k cs q
      → IsAscending key (reverse q) × IsNearest key k cs (reverse q)
  reverse-IsNearest cs q h = (
    reverse-IsAscending key q h.descending,
    record {
      counts = λ x. omega (arith, count_le-reverse key x q, h.nearest.counts x);
      size = omega (arith, length-reverse q, h.nearest.size);
      left = h.nearest.left;
      split = Perm.trans (Perm.append_right h.nearest.left (reverse_perm q)) h.nearest.split;
    },
  )

  pub offer_all-Holds :
      (es : List A) → 0 < k → (q : List A) × (offer_all key k es [] ≡ some q) × Holds key k es q
  offer_all-Holds es pos =
      let (q, run, h) = offer_all_lem es [] [] pos empty-Holds in (q, run, rw append-nil at h)
