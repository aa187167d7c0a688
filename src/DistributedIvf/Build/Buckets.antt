-- ===== src/DistributedIvf/Build/Buckets.antt =====
-- The inverted lists after both passes of build_index.
use native.Mathlib.Nat.{zero-add, zero-mul}
use dann.Prelude.{
  ℕ, zero, suc, ◌+◌, ◌*◌, ◌≤◌, ◌<◌, ◌≡◌, refl, ◌∙◌, List, [], ◌∷◌, take, drop, get_or, update_at,
  length-update_at, map, length-map, replicate, length, length-replicate, ◌==◌, if◌then◌else◌,
  ==_iff, ℤ, arith, Bool-cases, inl, inr, All,
}
use dann.Types.{Float, InvertedList}
use dann.DistributedIvf.Build.{Filling, count_from, presized, write_posting, place_from, fill}
use dann.DistributedIvf.Build.Counting.{
  gather_ids, gather_rows, occurrences, place_one, place_one-gather,
}

module _ {ℓ} {A : Type ℓ} where
  pub get_or-update_at :
      (xs : List A) (a j : ℕ) (f : A → A) (dflt : A)
      → a < length xs
      → get_or (update_at a f xs) j dflt
        ≡ (if a == j then f (get_or xs j dflt) else get_or xs j dflt)
  get_or-update_at [] a j f dflt h = absurd (omega arith)
  get_or-update_at (x ∷ xs) zero zero f dflt h = refl
  get_or-update_at (x ∷ xs) zero (suc j) f dflt h = ground arith
  get_or-update_at (x ∷ xs) (suc a) zero f dflt h = ground arith
  get_or-update_at (x ∷ xs) (suc a) (suc j) f dflt h =
      get_or-update_at xs a j f dflt (omega arith) ∙ ground arith

  get_or-map {κ} :
      {B : Type κ} (f : A → B) (xs : List A) (j : ℕ) (a : A) (b : B)
      → j < length xs
      → get_or (map f xs) j b ≡ f (get_or xs j a)
  get_or-map f [] j a b h = absurd (omega arith)
  get_or-map f (x ∷ xs) zero a b h = refl
  get_or-map f (x ∷ xs) (suc j) a b h = get_or-map f xs j a b (omega arith)

get_or-replicate : (n j : ℕ) → get_or {A = ℕ} (replicate n 0) j 0 ≡ 0
get_or-replicate zero j = refl
get_or-replicate (suc n) zero = refl
get_or-replicate (suc n) (suc j) = get_or-replicate n j

length-count_from : (l counts : List ℕ) → length (count_from l counts) ≡ length counts
unfolding count_from
length-count_from [] counts = refl
length-count_from (a ∷ l) counts =
    length-count_from l (update_at a suc counts) ∙ length-update_at a suc counts

-- The first pass counts what is assigned to each centroid.
count_from-occurrences :
    (l counts : List ℕ) (c : ℕ)
    → All (λ a. a < length counts) l
    → get_or (count_from l counts) c 0 ≡ occurrences c l + get_or counts c 0
unfolding count_from occurrences
count_from-occurrences [] counts c h = omega arith
count_from-occurrences (a ∷ l) counts c h =
    count_from-occurrences l (update_at a suc counts) c (rw (length-update_at a suc counts) h.1)
    ∙ rw (get_or-update_at counts a c suc 0 h.0)
        (elim (Bool-cases (a == c)) [ inl e ↦ rw e (omega arith) | inr e ↦ rw e (omega arith) ])

module _ (d : ℕ) (vectors : List Float) (c : ℕ) (dflt : InvertedList) where
  -- The second pass treats the lists apart from each other.
  place_from-one :
      (n : ℕ) (l : List ℕ) (ids : List ℤ) (i : ℕ) (b : Filling)
      → All (λ a. a < n) l
      → length b.cursor ≡ n
      → length b.postings ≡ n
      → get_or (place_from d vectors l ids i b).postings c dflt
        ≡ place_one d vectors c l ids i (get_or b.cursor c 0) (get_or b.postings c dflt)
  unfolding place_from place_one
  place_from-one n [] ids i b h e f = refl
  place_from-one n (a ∷ l) [] i b h e f = refl
  place_from-one n (a ∷ l) (id ∷ ids) i b h e f =
      place_from-one n l ids (suc i)
        (record {
          cursor = update_at a suc b.cursor;
          postings =
              update_at a (write_posting d (get_or b.cursor a 0) (take d (drop (i * d) vectors)) id)
                b.postings;
        })
        h.1 (length-update_at a suc b.cursor ∙ e)
        (length-update_at a
            (write_posting d (get_or b.cursor a 0) (take d (drop (i * d) vectors)) id) b.postings
          ∙ f)
      ∙ rw
          (
            get_or-update_at b.cursor a c suc 0 (rw e h.0),
            get_or-update_at b.postings a c
                (write_posting d (get_or b.cursor a 0) (take d (drop (i * d) vectors)) id) dflt
                (rw f h.0),
          )
          (elim (Bool-cases (a == c)) [
            | inl hit ↦ let g : a ≡ c = (==_iff a c).0 hit in rw (hit, g)
            | inr miss ↦ rw miss
          ])

  length-place_from :
      (l : List ℕ) (ids : List ℤ) (i : ℕ) (b : Filling)
      → length (place_from d vectors l ids i b).postings ≡ length b.postings
  unfolding place_from
  length-place_from [] ids i b = refl
  length-place_from (a ∷ l) [] i b = refl
  length-place_from (a ∷ l) (id ∷ ids) i b =
      length-place_from l ids (suc i) (record {
        cursor = update_at a suc b.cursor;
        postings =
            update_at a (write_posting d (get_or b.cursor a 0) (take d (drop (i * d) vectors)) id)
              b.postings;
      })
      ∙ length-update_at a
          (write_posting d (get_or b.cursor a 0) (take d (drop (i * d) vectors)) id) b.postings

-- The two passes leave in the list of each centroid the vectors that are assigned to it, in order.
pub fill-gather :
    (d n : ℕ) (vectors : List Float) (l : List ℕ) (ids : List ℤ) (c : ℕ) (dflt : InvertedList)
    → All (λ a. a < n) l
    → length l ≡ length ids
    → length ids * d ≤ length vectors
    → c < n
    → get_or (fill d n vectors l ids) c dflt
      ≡ record { vector_ids = gather_ids c l ids; vectors = gather_rows d vectors c l 0 }
unfolding fill
fill-gather d n vectors l ids c dflt h e room below =
    place_from-one d vectors c dflt n l ids 0
      (record {
        cursor = replicate n 0;
        postings = map (presized d) (count_from l (replicate n 0));
      })
      h (length-replicate {A = ℕ} n 0)
      (length-map (count_from l (replicate n 0)) (presized d) ∙ counts)
    ∙ rw
        (
          get_or-replicate n c,
          get_or-map (presized d) (count_from l (replicate n 0)) c 0 dflt (rw counts below),
          total,
        )
        (place_one-gather d vectors c l ids 0 0 [] [] e (rw zero-add room) refl (rw zero-mul))
  where
    counts : length (count_from l (replicate n 0)) ≡ n
    counts = length-count_from l (replicate n 0) ∙ length-replicate {A = ℕ} n 0

    total : get_or (count_from l (replicate n 0)) c 0 ≡ occurrences c l
    total =
        count_from-occurrences l (replicate n 0) c (rw (length-replicate {A = ℕ} n 0) h)
        ∙ rw (get_or-replicate n c) (omega arith)

pub length-fill :
    (d n : ℕ) (vectors : List Float) (l : List ℕ) (ids : List ℤ)
    → length (fill d n vectors l ids) ≡ n
unfolding fill
length-fill d n vectors l ids =
    length-place_from d vectors n (record { vector_ids = []; vectors = [] }) l ids 0
      (record {
        cursor = replicate n 0;
        postings = map (presized d) (count_from l (replicate n 0));
      })
    ∙ (length-map (count_from l (replicate n 0)) (presized d)
        ∙ (length-count_from l (replicate n 0) ∙ length-replicate {A = ℕ} n 0))
