-- ===== src/DistributedIvf/Build/Counting.antt =====
-- The counting sort as seen from one centroid: its list ends up with the vectors assigned to it, in
-- their order.
use native.Mathlib.Nat.{zero-add, zero-mul}
use dann.Prelude.{
  ℕ, zero, suc, ◌+◌, ◌*◌, ◌≤◌, ◌≡◌, refl, ap, ◌∙◌, List, [], ◌∷◌, ◌++◌, append_assoc, take, drop,
  set, replicate, length, length-append, length-take, length-drop, ◌==◌, if◌then◌else◌, ℤ, pos,
  arith, Bool-cases, inl, inr,
}
use dann.Types.{Float, InvertedList}
use dann.Clustering.Train.{write_row}
use dann.DistributedIvf.Build.{write_posting}

-- The ids and the rows of the vectors that are assigned to centroid c.
unfoldable pub gather_ids : ℕ → List ℕ → List ℤ → List ℤ
gather_ids c (a ∷ assignments) (id ∷ ids) =
    if a == c then id ∷ gather_ids c assignments ids else gather_ids c assignments ids
gather_ids c _ _ = []

unfoldable pub gather_rows : ℕ → List Float → ℕ → List ℕ → ℕ → List Float
gather_rows d vectors c [] i = []
gather_rows d vectors c (a ∷ assignments) i =
    if a == c
    then take d (drop (i * d) vectors) ++ gather_rows d vectors c assignments (suc i)
    else gather_rows d vectors c assignments (suc i)

-- How many vectors are assigned to centroid c.
unfoldable pub occurrences : ℕ → List ℕ → ℕ
occurrences c [] = 0
occurrences c (a ∷ assignments) = (if a == c then 1 else 0) + occurrences c assignments

-- The second pass, for the cursor and the list of one centroid.
unfoldable pub place_one :
    ℕ → List Float → ℕ → List ℕ → List ℤ → ℕ → ℕ → InvertedList → InvertedList
place_one d vectors c (a ∷ assignments) (id ∷ ids) i at p =
    place_one d vectors c assignments ids (suc i) (if a == c then suc at else at)
      (if a == c then write_posting d at (take d (drop (i * d) vectors)) id p else p)
place_one d vectors c _ _ i at p = p

-- Writing behind what has been written.
set-append :
    (done rest : List ℤ) (old id : ℤ) (at : ℕ)
    → length done ≡ at
    → set (done ++ old ∷ rest) at id ≡ done ++ id ∷ rest
set-append [] rest old id zero e = refl
set-append [] rest old id (suc at) e = absurd (omega arith)
set-append (x ∷ done) rest old id zero e = absurd (omega arith)
set-append (x ∷ done) rest old id (suc at) e =
    ap (◌∷◌ x) (set-append done rest old id at (omega arith))

take-append_self : (done rest : List Float) (n : ℕ) → length done ≡ n → take n (done ++ rest) ≡ done
take-append_self [] rest zero e = refl
take-append_self [] rest (suc n) e = absurd (omega arith)
take-append_self (x ∷ done) rest zero e = absurd (omega arith)
take-append_self (x ∷ done) rest (suc n) e = ap (◌∷◌ x) (take-append_self done rest n (omega arith))

drop-append_add :
    (done rest : List Float) (n m k : ℕ)
    → length done ≡ n
    → n + m ≡ k
    → drop k (done ++ rest) ≡ drop m rest
drop-append_add [] rest zero m k e f = let g : k ≡ m = omega arith in rw g
drop-append_add [] rest (suc n) m k e f = absurd (omega arith)
drop-append_add (x ∷ done) rest zero m k e f = absurd (omega arith)
drop-append_add (x ∷ done) rest (suc n) m zero e f = absurd (omega arith)
drop-append_add (x ∷ done) rest (suc n) m (suc k) e f =
    drop-append_add done rest n m k (omega arith) (omega arith)

drop-replicate : (d n k : ℕ) → d + n ≡ k → drop d (replicate {A = Float} k 0) ≡ replicate n 0
drop-replicate zero n k e = let g : k ≡ n = omega arith in rw g
drop-replicate (suc d) n zero e = absurd (omega arith)
drop-replicate (suc d) n (suc k) e = drop-replicate d n k (omega arith)

-- What the list of a centroid holds when `done` are written and m are missing.
abbrev pub partly : ℕ → List ℤ → List Float → ℕ → InvertedList
partly d done rows m = record {
  vector_ids = done ++ replicate m (pos 0);
  vectors = rows ++ replicate (m * d) 0;
}

write_posting-partly :
    (d at m : ℕ) (row : List Float) (id : ℤ) (done : List ℤ) (rows : List Float)
    → length done ≡ at
    → length rows ≡ at * d
    → write_posting d at row id (partly d done rows (suc m))
      ≡ partly d (done ++ id ∷ []) (rows ++ row) m
unfolding write_posting write_row
write_posting-partly d at m row id done rows e f =
    λ i. record { vector_ids = ids i; vectors = floats i }
  where
    ids : set (done ++ replicate (suc m) (pos 0)) at id ≡ (done ++ id ∷ []) ++ replicate m (pos 0)
    ids = rw append_assoc (set-append done (replicate m (pos 0)) (pos 0) id at e)

    room : d + m * d ≡ suc m * d
    room = omega arith

    behind : drop (at * d + d) (rows ++ replicate (suc m * d) 0) ≡ replicate {A = Float} (m * d) 0
    behind =
        drop-append_add rows (replicate (suc m * d) 0) (at * d) d (at * d + d) f refl
        ∙ drop-replicate d (m * d) (suc m * d) room

    floats :
        take (at * d) (rows ++ replicate (suc m * d) 0)
          ++ row
          ++ drop (at * d + d) (rows ++ replicate (suc m * d) 0)
        ≡ (rows ++ row) ++ replicate (m * d) 0
    floats = rw (behind, take-append_self rows (replicate (suc m * d) 0) (at * d) f)

-- The list of centroid c after the second pass: what it held, then its vectors in their order.
pub place_one-gather :
    (d : ℕ) (vectors : List Float) (c : ℕ) (assignments : List ℕ) (ids : List ℤ) (i at : ℕ)
    (done : List ℤ) (rows : List Float)
    → length assignments ≡ length ids
    → (i + length ids) * d ≤ length vectors
    → length done ≡ at
    → length rows ≡ at * d
    → place_one d vectors c assignments ids i at (partly d done rows (occurrences c assignments))
      ≡ record {
        vector_ids = done ++ gather_ids c assignments ids;
        vectors = rows ++ gather_rows d vectors c assignments i;
      }
unfolding place_one gather_ids gather_rows occurrences
place_one-gather d vectors c [] ids i at done rows e room f g = rw zero-mul
place_one-gather d vectors c (a ∷ assignments) [] i at done rows e room f g = absurd (omega arith)
place_one-gather d vectors c (a ∷ assignments) (id ∷ ids) i at done rows e room f g =
    elim (Bool-cases (a == c)) [
      | inl hit ↦
          rw (hit, one_more)
            (rw (write_posting-partly d at (occurrences c assignments) row id done rows f g) (
              rw
                (place_one-gather d vectors c assignments ids (suc i) (suc at) (done ++ id ∷ [])
                  (rows ++ row) (omega arith) room' (rw length-append (omega arith))
                  (rw length-append (omega (arith, length_row))))
                (rw (append_assoc, append_assoc))))
      | inr miss ↦
          rw (miss, zero-add)
            (place_one-gather d vectors c assignments ids (suc i) at done rows (omega arith) room' f
              g)
    ]
  where
    row : List Float
    row = take d (drop (i * d) vectors)

    one_more : 1 + occurrences c assignments ≡ suc (occurrences c assignments)
    one_more = omega arith

    room' : (suc i + length ids) * d ≤ length vectors
    room' =
        let e' : (suc i + length ids) * d ≡ (i + suc (length ids)) * d = omega arith in rw e' room

    length_row_room : i * d + d ≤ length vectors
    length_row_room =
        let e' : (i + suc (length ids)) * d ≡ i * d + d + length ids * d = omega arith in
        omega (arith, room, e')

    length_row : length row ≡ d
    length_row = rw (length-take, length-drop) (ground (arith, length_row_room))
