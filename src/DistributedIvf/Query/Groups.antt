-- ===== src/DistributedIvf/Query/Groups.antt =====
-- The centroids grouped by their shards.
use mathlib.Core.List.{perm_append_comm}
use mathlib.Core.List.Perm
use native.Mathlib.Nat.{mod-lt}
use dann.Prelude.{
  ℕ, ◌%◌, ◌<◌, ◌≡◌, refl, Option, some, List, [], ◌∷◌, ◌++◌, append-nil, append_assoc, get_or, ◌==◌,
  ==_iff, All, Bool-cases, inl, inr, Perm,
}
use dann.Dict.{find, assign, number_key}
use dann.Types.{Float, InternalSearchResult}
use dann.IvfShard.{IndexIvfShard, create_shard}
use dann.IvfShard.Search.{probed}
use dann.DistributedIvf.Query.{or_none, add_centroid, group_from}

-- Every key is the number of a shard.
abbrev pub InRange : ℕ → List (ℕ × List ℕ) → Type 0
InRange n m = All (λ e. e.0 < n) m

assign-InRange :
    (n i : ℕ) (cs : List ℕ) (m : List (ℕ × List ℕ))
    → i < n
    → InRange n m
    → InRange n (assign i cs m)
unfolding assign
assign-InRange n i cs [] h k = (h, tt)
assign-InRange n i cs ((j, ds) ∷ m) h k = elim (Bool-cases (j == i)) [
  | inl e ↦ rw (e, assign) k
  | inr e ↦ rw (e, assign) (k.0, assign-InRange n i cs m h k.1)
]

pub group_from-InRange :
    (n : ℕ) (cs : List ℕ) (m : List (ℕ × List ℕ))
    → 0 < n
    → InRange n m
    → InRange n (group_from n cs m)
unfolding group_from add_centroid
group_from-InRange n [] m h k = k
group_from-InRange n (c ∷ cs) m h k =
    group_from-InRange n cs (add_centroid (c % n) c m) h
      (assign-InRange n (c % n) (or_none (find (c % n) m) ++ c ∷ []) m (mod-lt c h) k)

pub swap_behind : {A : Type 0} (front l r : List A) → Perm ((front ++ l) ++ r) ((front ++ r) ++ l)
swap_behind front l r =
    rw (append_assoc, append_assoc) (Perm.append_left front (perm_append_comm l r))

module _ (fvec_l2sqr : List Float → List Float → Float) (shards : List IndexIvfShard)
    (query : List Float) where
  abbrev pub shard_of : ℕ → IndexIvfShard
  shard_of i = get_or shards i (create_shard 0 0 [])

  -- Every vector of the list that a shard has for a centroid.
  abbrev pub listed : ℕ → ℕ → List InternalSearchResult
  listed i c = probed fvec_l2sqr (shard_of i) (c ∷ []) query

  -- Every vector in the lists of the centroids, each taken from the shard that it belongs to.
  abbrev pub candidates : ℕ → List ℕ → List InternalSearchResult
  candidates n [] = []
  candidates n (c ∷ cs) = listed (c % n) c ++ candidates n cs

  -- The same for grouped centroids.
  abbrev pub grouped : List (ℕ × List ℕ) → List InternalSearchResult
  grouped [] = []
  grouped ((i, cs) ∷ m) = probed fvec_l2sqr (shard_of i) cs query ++ grouped m

  probed-snoc :
      (s : IndexIvfShard) (cs : List ℕ) (c : ℕ)
      → probed fvec_l2sqr s (cs ++ c ∷ []) query
        ≡ probed fvec_l2sqr s cs query ++ probed fvec_l2sqr s (c ∷ []) query
  probed-snoc s [] c = refl
  probed-snoc s (b ∷ cs) c = rw (probed-snoc s cs c, append_assoc)

  grouped-assign :
      (i c : ℕ) (o : Option (List ℕ)) (m : List (ℕ × List ℕ))
      → find i m ≡ o
      → Perm (grouped (assign i (or_none o ++ c ∷ []) m)) (grouped m ++ listed i c)
  unfolding find assign or_none
  grouped-assign i c o [] h = rw (← h) (rw append-nil Perm.rfl)
  grouped-assign i c o ((j, cs) ∷ m) h = elim (Bool-cases (j == i)) [
    | inl e ↦
        let same : j ≡ i = (==_iff j i).0 e in
        let held : some cs ≡ o = rw e at h in
        rw (e, assign)
          (rw (← held, or_none)
            (rw (same, probed-snoc (shard_of i) cs c)
              (swap_behind (probed fvec_l2sqr (shard_of i) cs query) (listed i c) (grouped m))))
    | inr e ↦
        let held : find i m ≡ o = rw e at h in
        rw (e, assign)
          (rw append_assoc (
            Perm.append_left (probed fvec_l2sqr (shard_of j) cs query)
              (grouped-assign i c o m held)))
  ]

  grouped-add_centroid :
      (i c : ℕ) (m : List (ℕ × List ℕ))
      → Perm (grouped (assign i (or_none (find i m) ++ c ∷ []) m)) (grouped m ++ listed i c)
  grouped-add_centroid i c m = grouped-assign i c (find i m) m refl

  -- Grouping loses no candidate and adds none.
  pub group_from-perm :
      (n : ℕ) (cs : List ℕ) (m : List (ℕ × List ℕ))
      → Perm (grouped (group_from n cs m)) (grouped m ++ candidates n cs)
  unfolding group_from add_centroid
  group_from-perm n [] m = rw append-nil Perm.rfl
  group_from-perm n (c ∷ cs) m =
      Perm.trans (group_from-perm n cs (add_centroid (c % n) c m)) (
        rw (← append_assoc)
          (Perm.append_right (candidates n cs) (grouped-add_centroid (c % n) c m)))
