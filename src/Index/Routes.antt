-- ===== src/Index/Routes.antt =====
-- Which vectors go to which shard.
use native.Mathlib.Nat.{mod-lt}
use dann.Prelude.{
  ℕ, zero, suc, ◌*◌, ◌%◌, ◌<◌, ◌≡◌, refl, ◌∙◌, false, List, [], ◌∷◌, ◌++◌, append-nil, append_assoc,
  take, drop, replicate, update_at, length-update_at, length-replicate, get_or, length, ◌==◌,
  if◌then◌else◌, ℤ, arith, Bool-cases, inl, inr,
}
use dann.Types.{Float}
use dann.Index.{Routed, shard_id_for_document, route_from}
use dann.DistributedIvf.Build.Buckets.{get_or-update_at}

module _ (hash : ℤ → ℕ) (count d : ℕ) (vectors : List Float) where
  -- The ids and the rows whose ids hash to a shard.
  unfoldable pub ids_for : ℕ → List ℤ → List ℤ
  ids_for j [] = []
  ids_for j (id ∷ ids) = (if hash id % count == j then id ∷ [] else []) ++ ids_for j ids

  unfoldable pub rows_for : ℕ → List ℤ → ℕ → List Float
  rows_for j [] i = []
  rows_for j (id ∷ ids) i =
      (if hash id % count == j then take d (drop (i * d) vectors) else []) ++ rows_for j ids (suc i)

  -- What a shard gets is what it had so far, then the ids and the rows that hash to it, in their order.
  pub route_from-lem :
      (ids : List ℤ) (i j : ℕ) (r : Routed)
      → 0 < count
      → length r.shard_ids ≡ count
      → length r.shard_vectors ≡ count
      → (get_or (route_from hash count d vectors ids i r).shard_ids j []
          ≡ get_or r.shard_ids j [] ++ ids_for j ids)
        × (get_or (route_from hash count d vectors ids i r).shard_vectors j []
            ≡ get_or r.shard_vectors j [] ++ rows_for j ids i)
  unfolding route_from ids_for rows_for shard_id_for_document
  route_from-lem [] i j r h e f = (rw append-nil, rw append-nil)
  route_from-lem (id ∷ ids) i j r h e f =
      let (same_ids, same_rows) =
        route_from-lem ids (suc i) j
          (record {
            shard_ids =
                update_at (shard_id_for_document hash count id) (λ l. l ++ id ∷ []) r.shard_ids;
            shard_vectors =
                update_at (shard_id_for_document hash count id)
                  (λ l. l ++ take d (drop (i * d) vectors)) r.shard_vectors;
          })
          h
          (length-update_at (shard_id_for_document hash count id) (λ l. l ++ id ∷ []) r.shard_ids
            ∙ e)
          (length-update_at (shard_id_for_document hash count id)
              (λ l. l ++ take d (drop (i * d) vectors)) r.shard_vectors
            ∙ f) in
      (
        same_ids ∙ rw shard (extend (id ∷ []) r.shard_ids (ids_for j ids) e),
        same_rows
            ∙ rw shard
                (extend (take d (drop (i * d) vectors)) r.shard_vectors (rows_for j ids (suc i)) f),
      )
    where
      shard : shard_id_for_document hash count id ≡ hash id % count
      shard = let some_shard : (count == 0) ≡ false = ground arith in rw some_shard

      extend :
          {A : Type 0} (new : List A) (old : List (List A)) (rest : List A)
          → length old ≡ count
          → get_or (update_at (hash id % count) (λ l. l ++ new) old) j [] ++ rest
            ≡ get_or old j [] ++ ((if hash id % count == j then new else []) ++ rest)
      extend new old rest g =
          rw
            (get_or-update_at old (hash id % count) j (λ l. l ++ new) []
              (rw g (mod-lt (hash id) h)))
            (elim (Bool-cases (hash id % count == j)) [
              | inl z ↦ rw (z, append_assoc)
              | inr z ↦ rw z
            ])

get_or-replicate_nil : {A : Type 0} (n j : ℕ) → get_or {A = List A} (replicate n []) j [] ≡ []
get_or-replicate_nil zero j = refl
get_or-replicate_nil (suc n) zero = refl
get_or-replicate_nil (suc n) (suc j) = get_or-replicate_nil n j

-- Before any shard is called, what is collected for shard j are the ids whose hash modulo the number of
-- shards is j, in their order, and the rows of the same vectors.
pub route_from-start :
    (hash : ℤ → ℕ) (count d : ℕ) (vectors : List Float) (ids : List ℤ) (j : ℕ)
    → 0 < count
    → (get_or
          (route_from hash count d vectors ids 0 (record {
            shard_ids = replicate count [];
            shard_vectors = replicate count [];
          })).shard_ids
          j
          []
        ≡ ids_for hash count d vectors j ids)
      × (get_or
            (route_from hash count d vectors ids 0 (record {
              shard_ids = replicate count [];
              shard_vectors = replicate count [];
            })).shard_vectors
            j
            []
          ≡ rows_for hash count d vectors j ids 0)
route_from-start hash count d vectors ids j h =
    let r : Routed = record {
      shard_ids = replicate count [];
      shard_vectors = replicate count [];
    } in
    let (same_ids, same_rows) =
      route_from-lem hash count d vectors ids 0 j r h (length-replicate {A = List ℤ} count [])
        (length-replicate {A = List Float} count []) in
    (
      same_ids ∙ rw (get_or-replicate_nil {A = ℤ} count j),
      same_rows ∙ rw (get_or-replicate_nil {A = Float} count j),
    )
