-- ===== src/Index.antt =====
-- src/core/index.cpp and include/dann/index_shard.h: an index that spreads vectors over shards by the
-- hash of their ids. A shard is an interface, and the factory and the hash are parameters.
pub mod Routes
pub mod Merged
use dann.Prelude.{
  ℕ, zero, suc, ◌+◌, ◌*◌, ◌/◌, ◌%◌, Bool, true, false, Option, none, some, List, [], ◌∷◌, ◌++◌,
  take, drop, replicate, update_at, get_elem?, length, ltb, ◌==◌, ◌||◌, if◌then◌else◌, ℤ, pos,
  negsuc, to_size, not_positive,
}
use dann.Dict.{Text, same_text}
use dann.Types.{Float, InternalSearchResult, Outcome, returned, thrown}
use dann.Ranking.{sort}
use dann.IvfShard.{by_result}

-- The operations of a shard whose state is in S; a call that adds vectors says whether it succeeded.
pub record IndexShard (S : Type 0) : Type 0 where
  pub add_vectors : List Float → List ℤ → S → S × Bool
  pub search : S → List Float → ℤ → List InternalSearchResult
  pub size : S → ℕ

pub record Index (S : Type 0) : Type 0 where
  pub name : Text
  pub dimension : ℕ
  pub shards : List S

-- `index_type == "IVF"` makes one shard, every other type as many as are asked for. The name that
-- reaches the factory has been moved from; it is left to the factory.
unfoldable pub create_index :
    {S : Type 0} → (Bool → ℕ → ℕ → S) → Text → ℤ → ℤ → Bool → Outcome (Index S)
create_index factory name dimension shard_count is_ivf =
    if not_positive dimension
    then thrown
    else if not_positive shard_count
    then thrown
    else returned (record {
      name = name;
      dimension = to_size dimension;
      shards =
          replicate (if is_ivf then 1 else to_size shard_count)
            (factory is_ivf (to_size dimension) (to_size shard_count));
    })

-- What is collected for each shard.
pub record Routed : Type 0 where
  pub shard_ids : List (List ℤ)
  pub shard_vectors : List (List Float)

module _ (hash : ℤ → ℕ) where
  unfoldable pub shard_id_for_document : ℕ → ℤ → ℕ
  shard_id_for_document count id = if count == 0 then 0 else hash id % count

  -- the loop over the ids from number i on
  unfoldable pub route_from : ℕ → ℕ → List Float → List ℤ → ℕ → Routed → Routed
  unfolding shard_id_for_document
  route_from count d vectors [] i r = r
  route_from count d vectors (id ∷ ids) i r = route_from count d vectors ids (suc i) (record {
    shard_ids = update_at (shard_id_for_document count id) (λ l. l ++ id ∷ []) r.shard_ids;
    shard_vectors =
        update_at (shard_id_for_document count id) (λ l. l ++ take d (drop (i * d) vectors))
          r.shard_vectors;
  })

module _ {S : Type 0} (ops : IndexShard S) where
  -- After a failure no further shard is called. Shards without ids are passed over.
  unfoldable pub add_from : List S → List (List ℤ) → List (List Float) → Bool → List S × Bool
  add_from (s ∷ shards) (ids ∷ shard_ids) (vectors ∷ shard_vectors) ok =
      let added = ops.add_vectors vectors ids s in
      let calls = if length ids == 0 then false else ok in
      let rest = add_from shards shard_ids shard_vectors (if calls then added.1 else ok) in
      ((if calls then added.0 else s) ∷ rest.0, rest.1)
  add_from shards _ _ ok = (shards, ok)

  abbrev with_shards : Index S → List S × Bool → Index S × Bool
  with_shards x r = (record x { shards = r.0 }, r.1)

  unfoldable pub add_vectors : (ℤ → ℕ) → List Float → List ℤ → Index S → Index S × Bool
  unfolding route_from add_from
  add_vectors hash vectors ids x =
      if (length ids == 0) || (length vectors == 0)
      then (x, false)
      else if length vectors % x.dimension == 0
      then (if length vectors / x.dimension == length ids
          then (if length x.shards == 1
              then with_shards x (add_from x.shards (ids ∷ []) (vectors ∷ []) true)
              else (let r = route_from hash (length x.shards) x.dimension vectors ids 0 (record {
                shard_ids = replicate (length x.shards) [];
                shard_vectors = replicate (length x.shards) [];
              }) in
                  with_shards x (add_from x.shards r.shard_ids r.shard_vectors true)))
          else (x, false))
      else (x, false)

  unfoldable pub search_all : List S → List Float → ℤ → List InternalSearchResult
  search_all [] query k = []
  search_all (s ∷ shards) query k = ops.search s query k ++ search_all shards query k

  -- `if (merged.size() > k) merged.resize(k)`
  unfoldable pub cut : ℕ → List InternalSearchResult → List InternalSearchResult
  cut k merged = if ltb k (length merged) then take k merged else merged

  unfoldable pub search_merged : Index S → List Float → ℤ → List InternalSearchResult
  unfolding search_all cut
  search_merged x query k =
      if not_positive k then [] else cut (to_size k) (sort by_result (search_all x.shards query k))

  unfoldable pub total_size : List S → ℕ
  total_size [] = 0
  total_size (s ∷ shards) = ops.size s + total_size shards
