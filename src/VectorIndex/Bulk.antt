-- ===== src/VectorIndex/Bulk.antt =====
-- What add_vectors and add_vectors_bulk of src/core/vector_index.cpp put into the index.
use native.Mathlib.Nat.{
  zero-mul, mul-le-mul, mul-mod_left, mul-div_cancel, add-mul, mul-le-mul_right,
}
use mathlib.Core.List.{map-append}
use dann.Prelude.{
  ℕ, zero, suc, ◌+◌, ◌-◌, ◌*◌, ◌/◌, ◌≤◌, ◌<◌, min, ◌≡◌, refl, ap, subst, ◌∙◌, Bool, true, false,
  none, some, if◌then◌else◌, List, [], ◌∷◌, ◌++◌, drop-drop, take-take, drop-take, drop_all,
  append-nil, append_assoc, map, take, drop, length, length-take, length-drop, ltb, ltb→lt, ◌==◌,
  ==_iff, ℤ, pos, arith, Bool-cases, inl, inr,
}
use dann.Types.{Float, OperationType, add_op}
use dann.VectorIndex.{
  FaissOps, VectorIndex, validate_vectors, logged, store, add_vectors, bulk_from, add_vectors_bulk,
  batch_at,
}

-- Each id with its d floats.
abbrev pub numbered : ℕ → List ℤ → List Float → List (ℤ × List Float)
numbered d [] vectors = []
numbered d (id ∷ ids) vectors = (id, take d vectors) ∷ numbered d ids (drop d vectors)

suc_mul : (n d : ℕ) → suc n * d ≡ d + n * d
suc_mul n d = omega arith

numbered-split :
    (d n : ℕ) (ids : List ℤ) (vectors : List Float)
    → numbered d (take n ids) (take (n * d) vectors)
        ++ numbered d (drop n ids) (drop (n * d) vectors)
      ≡ numbered d ids vectors
numbered-split d zero ids vectors = rw (zero-mul d)
numbered-split d (suc n) [] vectors = refl
numbered-split d (suc n) (id ∷ ids) vectors = rw (
  suc_mul n d,
  take-take d (n * d) vectors,
  drop-take d (n * d) vectors,
  drop-drop d (n * d) vectors,
  numbered-split d n ids (drop d vectors),
)

pub map-numbered :
    (d : ℕ) (ids : List ℤ) (vectors : List Float) → map (λ r. r.0) (numbered d ids vectors) ≡ ids
map-numbered d [] vectors = refl
map-numbered d (id ∷ ids) vectors = ap (◌∷◌ id) (map-numbered d ids (drop d vectors))

-- A batch of d floats for each of its ids is stored.
add_vectors-store :
    {F W : Type 0} (ops : FaissOps F W) (now : ℕ) (vectors : List Float) (ids : List ℤ)
    (x : VectorIndex F)
    → 0 < x.dimension
    → 0 < length ids
    → length vectors ≡ length ids * x.dimension
    → ops.is_id_map2 x.index ≡ true
    → (validate_vectors x.dimension vectors ≡ true)
      × ((length vectors / x.dimension == length ids) ≡ true)
      × (add_vectors ops now vectors ids x ≡ (store ops now vectors ids x, true))
unfolding add_vectors validate_vectors
add_vectors-store ops now vectors ids x d n e m =
    let z : (length vectors == 0) ≡ false = ground (arith, mul-le-mul n d) in
    let v : validate_vectors x.dimension vectors ≡ true =
      rw (z, validate_vectors) (rw (e, mul-mod_left (length ids) x.dimension) refl) in
    let q : (length vectors / x.dimension == length ids) ≡ true =
      rw (e, mul-div_cancel (length ids) d) ((==_iff (length ids) (length ids)).1 refl) in
    (v, q, rw (v, q, m))

-- What is assumed of faiss: adding appends the ids with their rows to what an index holds, and keeps the
-- index's dimension and its kind.
module _ {F W : Type 0} (ops : FaissOps F W) (contents : F → List (ℤ × List Float))
    (index_d : F → ℕ)
    (contents-add : (vectors : List Float) (ids : List ℤ) (f : F)
      → length vectors ≡ length ids * index_d f
      → contents (ops.add_with_ids vectors ids f) ≡ contents f ++ numbered (index_d f) ids vectors)
    (index_d-add : (vectors : List Float) (ids : List ℤ) (f : F)
      → index_d (ops.add_with_ids vectors ids f) ≡ index_d f)
    (is_id_map2-add : (vectors : List Float) (ids : List ℤ) (f : F)
      → ops.is_id_map2 (ops.add_with_ids vectors ids f) ≡ ops.is_id_map2 f) where
  -- An index that takes vectors of the dimension that the shard was made for.
  pub record IsReady (x : VectorIndex F) : Type 0 where
    pub positive : 0 < x.dimension
    pub same_d : index_d x.index ≡ x.dimension
    pub with_ids : ops.is_id_map2 x.index ≡ true

  -- From x to y rows have been added, with nothing else changed but the log and the version.
  pub record Grows (rows : List (ℤ × List Float)) (x y : VectorIndex F) : Type 0 where
    pub same_dimension : y.dimension ≡ x.dimension
    pub held : contents y.index ≡ contents x.index ++ rows
    pub log :
        map (λ o. o.id) y.pending_operations
        ≡ map (λ o. o.id) x.pending_operations ++ map (λ r. r.0) rows

  pub Grows_none : (x : VectorIndex F) → Grows [] x x
  Grows_none x = record { same_dimension = refl; held = rw append-nil; log = rw append-nil }

  Grows_trans :
      (l r : List (ℤ × List Float)) (x y z : VectorIndex F)
      → Grows l x y
      → Grows r y z
      → Grows (l ++ r) x z
  Grows_trans l r x y z g h = record {
    same_dimension = h.same_dimension ∙ g.same_dimension;
    held = rw (h.held, g.held, append_assoc);
    log = rw (h.log, g.log, append_assoc, map-append);
  }

  map-logged :
      (kind : OperationType) (now version : ℕ) (ids : List ℤ)
      → map (λ o. o.id) (map (logged kind now version) ids) ≡ ids
  unfolding logged
  map-logged kind now version [] = refl
  map-logged kind now version (id ∷ ids) = ap (◌∷◌ id) (map-logged kind now version ids)

  store-Grows :
      (now : ℕ) (vectors : List Float) (ids : List ℤ) (x : VectorIndex F)
      → IsReady x
      → length vectors ≡ length ids * x.dimension
      → IsReady (store ops now vectors ids x)
        × Grows (numbered x.dimension ids vectors) x (store ops now vectors ids x)
  unfolding store
  store-Grows now vectors ids x r e = (
    record {
      positive = r.positive;
      same_d = index_d-add vectors ids x.index ∙ r.same_d;
      with_ids = is_id_map2-add vectors ids x.index ∙ r.with_ids;
    },
    record {
      same_dimension = refl;
      held = rw (contents-add vectors ids x.index (rw r.same_d e), r.same_d);
      log =
          rw
            (map-append, map-logged add_op now x.version ids, map-numbered x.dimension ids vectors);
    },
  )

  done :
      (offset : ℕ) (vectors : List Float) (ids : List ℤ) (x : VectorIndex F)
      → length ids ≤ offset
      → Grows (numbered x.dimension (drop offset ids) (drop (offset * x.dimension) vectors)) x x
  done offset vectors ids x h = rw (drop_all offset ids h) (Grows_none x)

  batch_floats :
      (offset n : ℕ) (vectors : List Float) (ids : List ℤ) (d : ℕ)
      → offset + n ≤ length ids
      → length vectors ≡ length ids * d
      → length (take (n * d) (drop (offset * d) vectors)) ≡ n * d
  batch_floats offset n vectors ids d h e =
      let room = mul-le-mul_right d h in
      rw (length-take (n * d) (drop (offset * d) vectors), length-drop (offset * d) vectors)
        (omega (arith, room, add-mul offset n d))

  Grows_batch :
      (d n offset : ℕ) (vectors : List Float) (ids : List ℤ) (x y z : VectorIndex F)
      → Grows (numbered d (take n (drop offset ids)) (take (n * d) (drop (offset * d) vectors))) x y
      → Grows (numbered d (drop (offset + n) ids) (drop ((offset + n) * d) vectors)) y z
      → Grows (numbered d (drop offset ids) (drop (offset * d) vectors)) x z
  Grows_batch d n offset vectors ids x y z g h =
      subst (λ rows. Grows rows x z)
        (rw (
          add-mul offset n d,
          drop-drop offset n ids,
          drop-drop (offset * d) (n * d) vectors,
          numbered-split d n (drop offset ids) (drop (offset * d) vectors),
        ))
        (Grows_trans _ _ x y z g h)

  bulk_from-Grows :
      (rounds : ℕ) (now : ℕ → ℕ) (b offset : ℕ) (vectors : List Float) (ids : List ℤ)
      (x : VectorIndex F)
      → length ids - offset ≤ rounds
      → offset ≤ length ids
      → IsReady x
      → length vectors ≡ length ids * x.dimension
      → (y : VectorIndex F) × (bulk_from ops rounds now (suc b) offset vectors ids x
          ≡ some (y, true))
        × Grows (numbered x.dimension (drop offset ids) (drop (offset * x.dimension) vectors)) x y
  unfolding bulk_from store
  bulk_from-Grows zero now b offset vectors ids x h k r e = (
    x,
    all_done none (ltb offset (length ids)) (ground arith),
    done offset vectors ids x (omega arith),
  )
    where
      all_done : {A : Type 0} (a : A) {b : A} (t : Bool) → t ≡ false → (if t then a else b) ≡ b
      all_done a t z = rw z
  bulk_from-Grows (suc rounds) now b offset vectors ids x h k r e =
      let n = min (suc b) (length ids - offset) in
      let batch_ids = batch_at ops offset n ids in
      let batch = batch_at ops (offset * x.dimension) (n * x.dimension) vectors in
      elim (Bool-cases (ltb offset (length ids))) [
        | inl y ↦
            let n_ids : length batch_ids ≡ n =
              length-take n (drop offset ids) ∙ rw (length-drop offset ids) (omega arith) in
            let fits : length batch ≡ length batch_ids * x.dimension =
              rw n_ids (batch_floats offset n vectors ids x.dimension (omega (arith, ltb→lt)) e) in
            let added =
              add_vectors-store ops (now offset) batch batch_ids x r.positive
                (rw n_ids (omega (arith, ltb→lt))) fits r.with_ids in
            let (ready, grown) = store-Grows (now offset) batch batch_ids x r fits in
            let (z, ran, g) =
              bulk_from-Grows rounds now b (offset + n) vectors ids
                (store ops (now offset) batch batch_ids x) (omega (arith, ltb→lt))
                (omega (arith, ltb→lt)) ready e in
            (z, rw (y, added.2) ran, Grows_batch x.dimension n offset vectors ids x _ z grown g)
        | inr z ↦ (x, rw z, done offset vectors ids x (ground arith))
      ]

  -- For a positive batch size and d floats for each of at least one id, add_vectors_bulk returns true; what
  -- the index held is followed by each id with its d floats, in their order, and the pending operations by
  -- an operation for each id; that is what one add_vectors leaves too.
  pub add_vectors_bulk-Grows :
      (now : ℕ → ℕ) (b : ℕ) (vectors : List Float) (ids : List ℤ) (x : VectorIndex F)
      → IsReady x
      → 0 < length ids
      → length vectors ≡ length ids * x.dimension
      → ((y : VectorIndex F) × (add_vectors_bulk ops now (pos (suc b)) vectors ids x
            ≡ some (y, true))
          × Grows (numbered x.dimension ids vectors) x y)
        × ((add_vectors ops (now 0) vectors ids x).1 ≡ true)
        × Grows (numbered x.dimension ids vectors) x (add_vectors ops (now 0) vectors ids x).0
  unfolding add_vectors_bulk
  add_vectors_bulk-Grows now b vectors ids x r n e =
      let (valid, same_count, stored) =
        add_vectors-store ops (now 0) vectors ids x r.positive n e r.with_ids in
      let (y, ran, g) =
        bulk_from-Grows (length ids) now b 0 vectors ids x (omega arith) (omega arith) r e in
      (
        (y, rw (valid, same_count) ran, rw (zero-mul x.dimension) at g),
        rw stored,
        rw stored (store-Grows (now 0) vectors ids x r e).1,
      )
