-- ===== src/SearchService/Adding.antt =====
-- What AddVectors of src/network/vector_search_service_impl.cpp asks of the index that it works on.
use dann.Prelude.{
  ℕ, zero, suc, ◌*◌, ◌≡◌, refl, ap, Bool, false, All, List, [], ◌∷◌, map, length, length-append,
  length-map, take-append_front, drop-append_front, if◌then◌else◌, ℤ, pos, negsuc, not_positive,
  arith,
}
use dann.Types.{Float}
use dann.VectorIndex.Bulk.{numbered}
use dann.SearchService.{
  Called, gives, throws, ServedIndex, Status, status_ok, status_internal, Vector, AddVectorsRequest,
  AddVectorsResponse, ids_of, floats_of, add_response, add_vectors,
}

-- The rows of a request.
abbrev pub rows_of : List Vector → List (ℤ × List Float)
rows_of vectors = map (λ v. (v.id, v.elements)) vectors

abbrev pub Sized : ℕ → List Vector → Type 0
Sized d vectors = All (λ v. length v.elements ≡ d) vectors

length-floats_of :
    (d : ℕ) (vectors : List Vector)
    → Sized d vectors
    → length (floats_of vectors) ≡ length (ids_of vectors) * d
unfolding floats_of ids_of
length-floats_of d [] h = omega arith
length-floats_of d (v ∷ vectors) h =
    rw (length-append v.elements (floats_of vectors))
      (omega (arith, h.0, length-floats_of d vectors h.1))

numbered-floats_of :
    (d : ℕ) (vectors : List Vector)
    → Sized d vectors
    → numbered d (ids_of vectors) (floats_of vectors) ≡ rows_of vectors
unfolding floats_of ids_of
numbered-floats_of d [] h = refl
numbered-floats_of d (v ∷ vectors) h =
    rw
      (
        ← h.0,
        take-append_front v.elements (floats_of vectors),
        drop-append_front v.elements (floats_of vectors),
      )
      (ap (◌∷◌ (v.id, v.elements)) (numbered-floats_of d vectors h.1))

-- The batch size that add_vectors_bulk is called with, less 1.
positive_batch :
    (batch_size : ℤ)
    → (b : ℕ) × ((if not_positive batch_size then pos 1000 else batch_size) ≡ pos (suc b))
positive_batch (pos zero) = (999, refl)
positive_batch (pos (suc b)) = (b, refl)
positive_batch (negsuc b) = (999, refl)

-- How a request for n vectors is answered after a call of the index.
abbrev pub Answers : ℕ → Called Bool → AddVectorsResponse → Status → Type 0
Answers n (gives ok) response status =
    (response.success ≡ ok) × (response.added_count ≡ (if ok then n else 0)) × (status ≡ status_ok)
Answers n (throws what) response status =
    (response.success ≡ false)
    × (response.error_message ≡ what)
    × (response.added_count ≡ 0)
    × (status ≡ status_internal what)

add_response-Answers :
    (n time : ℕ) (called : Called Bool)
    → let (response, status) = add_response n time called in Answers n called response status
add_response-Answers n time (gives ok) = (refl, refl, refl)
add_response-Answers n time (throws what) = (refl, refl, refl, refl)

-- A request whose vectors have d elements each calls add_vectors_bulk of the index once: with a positive
-- batch size, an id for each vector and d floats for each id, which read in rows of d are the vectors
-- of the request with their ids, in their order. The index is then as that call leaves it. If the call
-- gives a result, the status is OK and the response has that result, and the number of the vectors for a
-- success and 0 otherwise; if it throws, the status is INTERNAL with the text of the exception, which
-- the response has too, without success.
pub add_vectors-Answers :
    {S : Type 0} (index : ServedIndex S) (time d : ℕ) (request : AddVectorsRequest) (s : S)
    → Sized d request.vectors
    → (floats : List Float) × (ids : List ℤ) × (batch_size : ℤ) × (not_positive batch_size ≡ false)
      × (length floats ≡ length ids * d)
      × (numbered d ids floats ≡ rows_of request.vectors)
      × let (t, called) = index.add_vectors_bulk floats ids batch_size s in
        let (u, response, status) = add_vectors index time request s in
        (u ≡ t) × Answers (length request.vectors) called response status
unfolding add_vectors ids_of
add_vectors-Answers index time d request s h =
    let batch_size = if not_positive request.batch_size then pos 1000 else request.batch_size in
    let (b, batch) = positive_batch request.batch_size in
    (
      floats_of request.vectors,
      ids_of request.vectors,
      batch_size,
      ap not_positive batch,
      length-floats_of d request.vectors h,
      numbered-floats_of d request.vectors h,
      (
        refl,
        rw (← length-map request.vectors (λ v. v.id))
            (add_response-Answers (length (ids_of request.vectors)) time _),
      ),
    )
