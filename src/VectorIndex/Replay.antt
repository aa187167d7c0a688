-- ===== src/VectorIndex/Replay.antt =====
-- The log of pending operations in src/core/vector_index.cpp against what the index holds.
use dann.Prelude.{
  ℕ, zero, suc, ◌+◌, ◌-◌, ◌*◌, ◌==◌, ◌≡◌, refl, subst, ◌∙◌, Bool, true, false, Option, none, some,
  Option-cases, if◌then◌else◌, List, [], ◌∷◌, ◌++◌, append-nil, append_assoc, map, length, ltb, min,
  ℤ, not_positive, to_size, arith, Bool-cases, if_both, inl, inr,
}
use dann.Dict.{Text, same_int}
use dann.Types.{
  Float, OperationType, add_op, delete_op, update_op, InternalIndexOperation, Outcome, returned,
  undefined, thrown,
}
use dann.VectorIndex.{
  FaissOps, VectorIndex, logged, store, create_index, new_vector_index, add_vectors, bulk_from,
  add_vectors_bulk, batch_at, after_remove, remove_vector, after_removal, update_vector, load_index,
  reset_index, set_version,
}

abbrev pub without : ℤ → List ℤ → List ℤ
without id [] = []
without id (i ∷ ids) = if same_int id i then without id ids else i ∷ without id ids

-- What an operation does to the ids of an index; an update is logged as a deletion and an addition.
abbrev pub redo : OperationType → ℤ → List ℤ → List ℤ
redo add_op id held = held ++ id ∷ []
redo delete_op id held = without id held
redo update_op id held = held

abbrev pub replay : List InternalIndexOperation → List ℤ → List ℤ
replay [] held = held
replay (o ∷ log) held = replay log (redo o.kind o.id held)

replay-append :
    (l m : List InternalIndexOperation) (held : List ℤ)
    → replay (l ++ m) held ≡ replay m (replay l held)
replay-append [] m held = refl
replay-append (o ∷ l) m held = replay-append l m (redo o.kind o.id held)

replay-additions :
    (now version : ℕ) (ids held : List ℤ)
    → replay (map (logged add_op now version) ids) held ≡ held ++ ids
unfolding logged
replay-additions now version [] held = rw append-nil
replay-additions now version (id ∷ ids) held =
    replay-additions now version ids (held ++ id ∷ []) ∙ rw append_assoc

-- What is assumed of faiss: a new index is empty, adding appends the ids, and a removal takes the
-- vectors with that id, which are none if it says that it took none.
module _ {F W : Type 0} (ops : FaissOps F W) (ids_of : F → List ℤ)
    (ids-hnsw_flat : (d : ℕ) (m ef : ℤ) → ids_of (ops.hnsw_flat d m ef) ≡ [])
    (ids-flat_l2 : (d : ℕ) → ids_of (ops.flat_l2 d) ≡ [])
    (ids-add : (vectors : List Float) (ids : List ℤ) (f : F)
      → ids_of (ops.add_with_ids vectors ids f) ≡ ids_of f ++ ids)
    (ids-remove : (id : ℤ) (f g : F) (n : ℕ)
      → ops.remove_ids id f ≡ some (g, n)
      → ids_of g ≡ without id (ids_of f))
    (ids-remove_none : (id : ℤ) (f g : F)
      → ops.remove_ids id f ≡ some (g, 0)
      → ids_of g ≡ ids_of f) where
  -- The log replayed over the ids that the index had when the log was begun.
  pub record IsLogged (begun : List ℤ) (x : VectorIndex F) : Type 0 where
    pub held : ids_of x.index ≡ replay x.pending_operations begun

  -- A call that changes the shard. A load or a reset begins the log anew; a call that ends in an exception
  -- changes nothing.
  pub data Step : List ℤ → VectorIndex F → List ℤ → VectorIndex F → Type 0 where
    add :
        {begun : List ℤ} {x : VectorIndex F} (now : ℕ) (vectors : List Float) (ids : List ℤ)
        → Step begun x begun (add_vectors ops now vectors ids x).0
    add_bulk :
        {begun : List ℤ} {x : VectorIndex F} (now : ℕ → ℕ) (batch_size : ℤ) (vectors : List Float)
        (ids : List ℤ) (y : VectorIndex F) (ok : Bool)
        → add_vectors_bulk ops now batch_size vectors ids x ≡ some (y, ok)
        → Step begun x begun y
    remove :
        {begun : List ℤ} {x : VectorIndex F} (now : ℕ) (id : ℤ) (y : VectorIndex F) (ok : Bool)
        → remove_vector ops now id x ≡ returned (y, ok)
        → Step begun x begun y
    update :
        {begun : List ℤ} {x : VectorIndex F} (now then_now : ℕ) (id : ℤ) (v : List Float)
        (y : VectorIndex F) (ok : Bool)
        → update_vector ops now then_now id v x ≡ returned (y, ok)
        → Step begun x begun y
    load :
        {begun : List ℤ} {x : VectorIndex F} (file_path : Text) (w : W)
        → (load_index ops file_path w x).1 ≡ true
        → Step begun x
            (ids_of (load_index ops file_path w x).0.index)
            (load_index ops file_path w x).0
    reset : {begun : List ℤ} {x : VectorIndex F} → Step begun x [] (reset_index ops x)
    set :
        {begun : List ℤ} {x : VectorIndex F} (version : ℕ)
        → Step begun x begun (set_version version x)

  pub data Reach : List ℤ → VectorIndex F → Type 0 where
    made :
        {x : VectorIndex F} (dimension : ℤ) (index_type : Text) (m ef : ℤ)
        → new_vector_index ops dimension index_type m ef ≡ returned x
        → Reach [] x
    next :
        {begun : List ℤ} {x : VectorIndex F} {new_begun : List ℤ} {y : VectorIndex F}
        → Reach begun x
        → Step begun x new_begun y
        → Reach new_begun y

  store-IsLogged :
      (now : ℕ) (vectors : List Float) (ids : List ℤ) (begun : List ℤ) (x : VectorIndex F)
      → IsLogged begun x
      → IsLogged begun (store ops now vectors ids x)
  unfolding store
  store-IsLogged now vectors ids begun x h = record {
    held = rw (
      ids-add vectors ids x.index,
      h.held,
      replay-append x.pending_operations (map (logged add_op now x.version) ids) begun,
      replay-additions now x.version ids (replay x.pending_operations begun),
    );
  }

  add_vectors-IsLogged :
      (now : ℕ) (vectors : List Float) (ids : List ℤ) (begun : List ℤ) (x : VectorIndex F)
      → IsLogged begun x
      → IsLogged begun (add_vectors ops now vectors ids x).0
  unfolding add_vectors
  add_vectors-IsLogged now vectors ids begun x h =
      if_both (λ (r : VectorIndex F × Bool). IsLogged begun r.0) _ (x, false) _ h
        (if_both (λ (r : VectorIndex F × Bool). IsLogged begun r.0) (ops.is_id_map2 x.index)
          (store ops now vectors ids x, true) (x, false) (store-IsLogged now vectors ids begun x h)
          h)

  LoggedResult : List ℤ → Option (VectorIndex F × Bool) → Type 0
  LoggedResult begun none = Unit
  LoggedResult begun (some r) = IsLogged begun r.0

  bulk_from-IsLogged :
      (rounds : ℕ) (now : ℕ → ℕ) (batch_size offset : ℕ) (vectors : List Float) (ids : List ℤ)
      (begun : List ℤ) (x : VectorIndex F)
      → IsLogged begun x
      → LoggedResult begun (bulk_from ops rounds now batch_size offset vectors ids x)
  unfolding bulk_from LoggedResult
  bulk_from-IsLogged zero now batch_size offset vectors ids begun x h =
      if_both (LoggedResult begun) (ltb offset (length ids)) none (some (x, true)) tt h
  bulk_from-IsLogged (suc rounds) now batch_size offset vectors ids begun x h =
      let n = min batch_size (length ids - offset) in
      let batch = batch_at ops (offset * x.dimension) (n * x.dimension) vectors in
      let batch_ids = batch_at ops offset n ids in
      let added = add_vectors ops (now offset) batch batch_ids x in
      let kept : IsLogged begun added.0 =
        add_vectors-IsLogged (now offset) batch batch_ids begun x h in
      if_both (LoggedResult begun) (ltb offset (length ids)) _ (some (x, true))
        (if_both (LoggedResult begun) added.1
          (bulk_from ops rounds now batch_size (offset + n) vectors ids added.0)
          (some (added.0, false))
          (bulk_from-IsLogged rounds now batch_size (offset + n) vectors ids begun added.0 kept)
          kept)
        h

  add_vectors_bulk-IsLogged :
      (now : ℕ → ℕ) (batch_size : ℤ) (vectors : List Float) (ids : List ℤ) (begun : List ℤ)
      (x : VectorIndex F)
      → IsLogged begun x
      → LoggedResult begun (add_vectors_bulk ops now batch_size vectors ids x)
  unfolding add_vectors_bulk LoggedResult
  add_vectors_bulk-IsLogged now batch_size vectors ids begun x h =
      if_both (LoggedResult begun) (not_positive batch_size) (some (x, false)) _ h (
        if_both (LoggedResult begun) _ (some (x, false)) _ h
          (bulk_from-IsLogged (length ids) now (to_size batch_size) 0 vectors ids begun x h))

  LoggedOutcome : List ℤ → Outcome (VectorIndex F × Bool) → Type 0
  LoggedOutcome begun (returned r) = IsLogged begun r.0
  LoggedOutcome begun undefined = Unit
  LoggedOutcome begun thrown = Unit

  remove_vector-IsLogged :
      (now : ℕ) (id : ℤ) (begun : List ℤ) (x : VectorIndex F)
      → IsLogged begun x
      → LoggedOutcome begun (remove_vector ops now id x)
  unfolding remove_vector LoggedOutcome after_remove logged
  remove_vector-IsLogged now id begun x h = elim (Option-cases (ops.remove_ids id x.index)) [
    | inl e ↦ rw e tt
    | inr ((f, n), e) ↦ rw e (elim (Bool-cases (ltb 0 n)) [
      | inl y ↦ rw y (record {
        held =
            rw
              (
                replay-append x.pending_operations (logged delete_op now x.version id ∷ []) begun,
                ← h.held,
              )
              (ids-remove id x.index f n e);
      })
      | inr z ↦
          let nothing : n ≡ 0 = ground arith in
          rw z (record { held = ids-remove_none id x.index f (e ∙ rw nothing) ∙ h.held })
    ])
  ]

  update_vector-IsLogged :
      (now then_now : ℕ) (id : ℤ) (v : List Float) (begun : List ℤ) (x : VectorIndex F)
      → IsLogged begun x
      → LoggedOutcome begun (update_vector ops now then_now id v x)
  unfolding update_vector LoggedOutcome
  update_vector-IsLogged now then_now id v begun x h =
      if_both (LoggedOutcome begun) (length v == x.dimension) _ (returned (x, false))
        (added_after (remove_vector ops now id x) (remove_vector-IsLogged now id begun x h)) h
    where
      added_after :
          (o : Outcome (VectorIndex F × Bool))
          → LoggedOutcome begun o
          → LoggedOutcome begun (after_removal ops then_now id v o)
      added_after (returned (y, true)) k = add_vectors-IsLogged then_now v (id ∷ []) begun y k
      added_after (returned (y, false)) k = k
      added_after undefined k = tt
      added_after thrown k = tt

  reset_index-empty : (x : VectorIndex F) → ids_of (reset_index ops x).index ≡ []
  unfolding reset_index create_index
  reset_index-empty x =
      if_both (λ f. ids_of f ≡ []) _ _ _ (ids-hnsw_flat x.dimension x.hnsw_m x.hnsw_ef_construction)
        (ids-flat_l2 x.dimension)

  LoggedStart : Outcome (VectorIndex F) → Type 0
  LoggedStart (returned x) = IsLogged [] x
  LoggedStart undefined = Unit
  LoggedStart thrown = Unit

  new_vector_index-IsLogged :
      (dimension : ℤ) (index_type : Text) (m ef : ℤ) (x : VectorIndex F)
      → new_vector_index ops dimension index_type m ef ≡ returned x
      → IsLogged [] x
  unfolding new_vector_index create_index LoggedStart
  new_vector_index-IsLogged dimension index_type m ef x e = subst LoggedStart e (
      if_both LoggedStart (not_positive dimension) thrown _ tt (record {
        held =
            if_both (λ f. ids_of f ≡ []) _ _ _ (ids-hnsw_flat (to_size dimension) m ef)
              (ids-flat_l2 (to_size dimension));
      }))

  load_index-log :
      (file_path : Text) (w : W) (x : VectorIndex F)
      → (load_index ops file_path w x).1 ≡ true
      → (load_index ops file_path w x).0.pending_operations ≡ []
  unfolding load_index
  load_index-log file_path w x e = elim (Option-cases (ops.read_index file_path w)) [
    | inl r ↦ absurd (ground (arith, (rw (r, load_index) at e)))
    | inr (f, r) ↦ rw (r, load_index) refl
  ]

  Step-IsLogged :
      (begun : List ℤ) (x : VectorIndex F) (new_begun : List ℤ) (y : VectorIndex F)
      → IsLogged begun x
      → Step begun x new_begun y
      → IsLogged new_begun y
  unfolding LoggedResult LoggedOutcome set_version reset_index
  Step-IsLogged begun x _ _ h (add now vectors ids) = add_vectors-IsLogged now vectors ids begun x h
  Step-IsLogged begun x _ _ h (add_bulk now batch_size vectors ids y ok e) =
      subst (LoggedResult begun) e (add_vectors_bulk-IsLogged now batch_size vectors ids begun x h)
  Step-IsLogged begun x _ _ h (remove now id y ok e) =
      subst (LoggedOutcome begun) e (remove_vector-IsLogged now id begun x h)
  Step-IsLogged begun x _ _ h (update now then_now id v y ok e) =
      subst (LoggedOutcome begun) e (update_vector-IsLogged now then_now id v begun x h)
  Step-IsLogged begun x _ _ h (load file_path w e) = record {
    held = rw (load_index-log file_path w x e);
  }
  Step-IsLogged begun x _ _ h reset = record { held = reset_index-empty x }
  Step-IsLogged begun x _ _ h (set version) = record { held = h.held }

  -- In every order of the calls: the ids in the index are those that it had when the log was last begun,
  -- with the pending operations done to them in their order.
  pub Reach-replay :
      (begun : List ℤ) (x : VectorIndex F)
      → Reach begun x
      → ids_of x.index ≡ replay x.pending_operations begun
  Reach-replay begun x r = (go begun x r).held
    where
      go : (begun : List ℤ) (x : VectorIndex F) → Reach begun x → IsLogged begun x
      go _ x (made dimension index_type m ef e) =
          new_vector_index-IsLogged dimension index_type m ef x e
      go _ y (next {begun = b} {x = x} r s) = Step-IsLogged b x _ y (go b x r) s
