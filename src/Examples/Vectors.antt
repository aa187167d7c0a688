-- ===== src/Examples/Vectors.antt =====
-- A faiss index that keeps its dimension and its rows in a list.
use mathlib.Core.List.{map-append}
use dann.Prelude.{
  ℕ, ◌-◌, ◌≡◌, refl, true, Option, none, some, List, [], ◌∷◌, ◌++◌, map, length, ◌≤◌, ap, subst,
  Bool-cases, inl, inr, if◌then◌else◌, ℤ, pos, arith,
}
use dann.Dict.{same_int, Text, find, text_key}
use dann.Types.{Float, add_op, delete_op}
use dann.Config.{text}
use dann.VectorIndex.{
  FaissOps, VectorIndex, logged, store, create_index, after_remove, new_vector_index, add_vectors,
  add_vectors_bulk, remove_vector,
}
use dann.VectorIndex.Bulk.{numbered, map-numbered, IsReady, Grows, add_vectors_bulk-Grows}
use dann.VectorIndex.Replay.{without, replay, Reach, made, next, add, remove, Reach-replay}

abbrev pub Flat : Type 0
Flat = ℕ × List (ℤ × List Float)

abbrev pub without_rows : ℤ → List (ℤ × List Float) → List (ℤ × List Float)
without_rows id [] = []
without_rows id (r ∷ rows) =
    if same_int id r.0 then without_rows id rows else r ∷ without_rows id rows

abbrev pub flat : FaissOps Flat (List (Text × Flat))
flat = record {
  hnsw_flat = λ d m ef. (d, []);
  flat_l2 = λ d. (d, []);
  is_id_map2 = λ f. true;
  add_with_ids = λ vectors ids f. (f.0, f.1 ++ numbered f.0 ids vectors);
  search = λ n queries k f. [];
  remove_ids = λ id f. some ((f.0, without_rows id f.1), length f.1 - length (without_rows id f.1));
  ntotal = λ f. length f.1;
  write_index = λ f file_path w. some ((file_path, f) ∷ w);
  read_index = λ file_path w. find file_path w;
}

abbrev ids_in : Flat → List ℤ
ids_in f = map (λ r. r.0) f.1

map-without_rows :
    (id : ℤ) (rows : List (ℤ × List Float))
    → map (λ r. r.0) (without_rows id rows) ≡ without id (map (λ r. r.0) rows)
map-without_rows id [] = refl
map-without_rows id (r ∷ rows) = elim (Bool-cases (same_int id r.0)) [
  | inl y ↦ rw y (map-without_rows id rows)
  | inr z ↦ rw z (ap (◌∷◌ r.0) (map-without_rows id rows))
]

length-without_rows :
    (id : ℤ) (rows : List (ℤ × List Float)) → length (without_rows id rows) ≤ length rows
length-without_rows id [] = omega arith
length-without_rows id (r ∷ rows) = elim (Bool-cases (same_int id r.0)) [
  | inl y ↦ rw y (omega (arith, length-without_rows id rows))
  | inr z ↦ rw z (omega (arith, length-without_rows id rows))
]

without_rows_all :
    (id : ℤ) (rows : List (ℤ × List Float))
    → length rows ≤ length (without_rows id rows)
    → without_rows id rows ≡ rows
without_rows_all id [] h = refl
without_rows_all id (r ∷ rows) h = elim (Bool-cases (same_int id r.0)) [
  | inl y ↦ absurd (omega (arith, (rw y at h), length-without_rows id rows))
  | inr z ↦ rw z (ap (◌∷◌ r) (without_rows_all id rows (omega (arith, (rw z at h)))))
]

flat-added :
    (vectors : List Float) (ids : List ℤ) (f : Flat)
    → ids_in (f.0, f.1 ++ numbered f.0 ids vectors) ≡ ids_in f ++ ids
flat-added vectors ids f = rw (map-append, map-numbered f.0 ids vectors)

abbrev Removed : (Flat → ℕ → Type 0) → Option (Flat × ℕ) → Type 0
Removed P none = Unit
Removed P (some r) = P r.0 r.1

flat-removed :
    (id : ℤ) (f g : Flat) (n : ℕ)
    → flat.remove_ids id f ≡ some (g, n)
    → ids_in g ≡ without id (ids_in f)
flat-removed id f g n e =
    subst (Removed (λ g n. ids_in g ≡ without id (ids_in f))) e (map-without_rows id f.1)

flat-none_removed : (id : ℤ) (f g : Flat) → flat.remove_ids id f ≡ some (g, 0) → ids_in g ≡ ids_in f
flat-none_removed id f g e =
    subst (Removed (λ g n. n ≡ 0 → ids_in g ≡ ids_in f)) e
      (λ z. ap (map (λ r. r.0)) (without_rows_all id f.1 (omega arith))) refl

abbrev pub made_two : VectorIndex Flat
made_two = record {
  index = (2, []);
  dimension = 2;
  index_type = text "IVF";
  hnsw_m = pos 16;
  hnsw_ef_construction = pos 100;
  version = 0;
  pending_operations = [];
}

abbrev pub three : List ℤ
three = pos 7 ∷ pos 8 ∷ pos 9 ∷ []

abbrev pub six : List Float
six = 1 ∷ 2 ∷ 3 ∷ 4 ∷ 5 ∷ 6 ∷ []

pub flat-IsReady :
    IsReady flat
      (λ f. f.1)
      (λ f. f.0)
      (λ vectors ids f e. refl)
      (λ vectors ids f. refl)
      (λ vectors ids f. refl)
      made_two
flat-IsReady = record { positive = omega arith; same_d = refl; with_ids = refl }

add_vectors_bulk-Grows_example :
    ((y : VectorIndex Flat) × (add_vectors_bulk flat (λ offset. offset) (pos 2) six three made_two
        ≡ some (y, true))
      × Grows flat
          (λ f. f.1)
          (λ f. f.0)
          (λ vectors ids f e. refl)
          (λ vectors ids f. refl)
          (λ vectors ids f. refl)
          (numbered 2 three six)
          made_two
          y)
    × ((add_vectors flat 0 six three made_two).1 ≡ true)
    × Grows flat
        (λ f. f.1)
        (λ f. f.0)
        (λ vectors ids f e. refl)
        (λ vectors ids f. refl)
        (λ vectors ids f. refl)
        (numbered 2 three six)
        made_two
        (add_vectors flat 0 six three made_two).0
add_vectors_bulk-Grows_example =
    add_vectors_bulk-Grows flat (λ f. f.1) (λ f. f.0) (λ vectors ids f e. refl)
      (λ vectors ids f. refl) (λ vectors ids f. refl) (λ offset. offset) 1 six three made_two
      flat-IsReady (omega arith) refl

-- Three vectors, of which the second is then removed.
abbrev one_removed : VectorIndex Flat
one_removed = record made_two {
  index = (2, (pos 7, 1 ∷ 2 ∷ []) ∷ (pos 9, 5 ∷ 6 ∷ []) ∷ []);
  version = 2;
  pending_operations =
      logged add_op 40 0 (pos 7)
      ∷ logged add_op 40 0 (pos 8)
      ∷ logged add_op 40 0 (pos 9)
      ∷ logged delete_op 41 1 (pos 8)
      ∷ [];
}

flat_reached :
    Reach flat ids_in
      (λ d m ef. refl)
      (λ d. refl)
      flat-added
      flat-removed
      flat-none_removed
      []
      one_removed
unfolding new_vector_index create_index add_vectors remove_vector after_remove store
flat_reached =
    next (next (made (pos 2) (text "IVF") (pos 16) (pos 100) refl) (add 40 six three))
      (remove 41 (pos 8) one_removed true refl)

Reach-replay_example : ids_in one_removed.index ≡ replay one_removed.pending_operations []
Reach-replay_example =
    Reach-replay flat ids_in (λ d m ef. refl) (λ d. refl) flat-added flat-removed flat-none_removed
      [] one_removed flat_reached
