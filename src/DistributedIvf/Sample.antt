-- ===== src/DistributedIvf/Sample.antt =====
-- sample_training_vectors: reservoir sampling. The random draws are a parameter: `draws i` is the
-- draw for vector i, between 0 and i.
use dann.Prelude.{
  ℕ, zero, suc, ◌+◌, ◌-◌, ◌*◌, ◌/◌, ◌≤◌, ◌<◌, ◌≡◌, ◌≢◌, refl, ◌∙◌, ap, min, List, [], ◌∷◌, ◌++◌,
  All, take, drop, set, length, length-set, ltb, leb, if◌then◌else◌, arith, Bool-cases, inl, inr,
}
use dann.Types.{Float}
use dann.Clustering.Train.{iota}

-- the loop over the vectors from i on
reservoir_from : (ℕ → ℕ) → ℕ → ℕ → ℕ → List ℕ → List ℕ
reservoir_from draws size zero i reservoir = reservoir
reservoir_from draws size (suc n) i reservoir =
    reservoir_from draws size n (suc i)
      (if ltb (draws i) size then set reservoir (draws i) i else reservoir)

unfoldable pub extract : List Float → ℕ → List ℕ → List Float
extract vectors d [] = []
extract vectors d (x ∷ reservoir) = take d (drop (x * d) vectors) ++ extract vectors d reservoir

unfoldable pub sample_training_vectors : (ℕ → ℕ) → List Float → ℕ → ℕ → List Float
unfolding reservoir_from
sample_training_vectors draws vectors d n_train =
    let total = length vectors / d in
    let size = min n_train total in
    if leb total size
    then vectors
    else extract vectors d (reservoir_from draws size (total - size) size (iota size 0))

-- No element stands twice.
abbrev pub IsDistinct : List ℕ → Type 0
IsDistinct [] = Unit
IsDistinct (x ∷ l) = All (λ y. x ≢ y) l × IsDistinct l

-- What the reservoir is before vector i is looked at.
record IsSample (size i : ℕ) (l : List ℕ) : Type 0 where
  count : length l ≡ size
  below : All (λ x. x < i) l
  distinct : IsDistinct l

All-set : (P : ℕ → Type 0) (l : List ℕ) (j v : ℕ) → P v → All P l → All P (set l j v)
All-set P [] j v p h = tt
All-set P (x ∷ l) zero v p h = (p, h.1)
All-set P (x ∷ l) (suc j) v p h = (h.0, All-set P l j v p h.1)

All-ne_of_lt : (v : ℕ) (l : List ℕ) → All (λ x. x < v) l → All (λ x. v ≢ x) l
All-ne_of_lt v [] h = tt
All-ne_of_lt v (x ∷ l) h = (omega (arith, h.0), All-ne_of_lt v l h.1)

All-lt_suc : (i : ℕ) (l : List ℕ) → All (λ x. x < i) l → All (λ x. x < suc i) l
All-lt_suc i [] h = tt
All-lt_suc i (x ∷ l) h = (omega (arith, h.0), All-lt_suc i l h.1)

set-IsDistinct : (l : List ℕ) (j v : ℕ) → All (λ x. x < v) l → IsDistinct l → IsDistinct (set l j v)
set-IsDistinct [] j v h d = tt
set-IsDistinct (x ∷ l) zero v h d = (All-ne_of_lt v l h.1, d.1)
set-IsDistinct (x ∷ l) (suc j) v h d =
    (All-set (λ y. x ≢ y) l j v (omega (arith, h.0)) d.0, set-IsDistinct l j v h.1 d.1)

reservoir_from-IsSample :
    (draws : ℕ → ℕ) (size n i j : ℕ) (l : List ℕ)
    → i + n ≡ j
    → IsSample size i l
    → IsSample size j (reservoir_from draws size n i l)
unfolding reservoir_from
reservoir_from-IsSample draws size zero i j l e h = let same : i ≡ j = omega arith in rw (← same) h
reservoir_from-IsSample draws size (suc n) i j l e h =
    reservoir_from-IsSample draws size n (suc i) j _ (omega arith)
      (elim (Bool-cases (ltb (draws i) size)) [
        | inl hit ↦ rw hit (record {
          count = length-set l (draws i) i ∙ h.count;
          below = All-set (λ x. x < suc i) l (draws i) i (omega arith) (All-lt_suc i l h.below);
          distinct = set-IsDistinct l (draws i) i h.below h.distinct;
        })
        | inr miss ↦
            rw miss
              (record { count = h.count; below = All-lt_suc i l h.below; distinct = h.distinct })
      ])

iota-above : (n i : ℕ) (k : ℕ) → k < i → All (λ y. k ≢ y) (iota n i)
unfolding iota
iota-above zero i k h = tt
iota-above (suc n) i k h = (omega arith, iota-above n (suc i) k (omega arith))

iota-IsDistinct : (n i : ℕ) → IsDistinct (iota n i)
unfolding iota
iota-IsDistinct zero i = tt
iota-IsDistinct (suc n) i = (iota-above n (suc i) i (omega arith), iota-IsDistinct n (suc i))

iota-below : (n i j : ℕ) → i + n ≤ j → All (λ x. x < j) (iota n i)
unfolding iota
iota-below zero i j h = tt
iota-below (suc n) i j h = (omega arith, iota-below n (suc i) j (omega arith))

length-iota : (n i : ℕ) → length (iota n i) ≡ n
unfolding iota
length-iota zero i = refl
length-iota (suc n) i = ap suc (length-iota n (suc i))

-- If fewer vectors are wanted than there are, the sample consists of exactly as many rows as are
-- wanted, of vectors that exist, and no vector is taken twice, whatever the draws.
pub sample_training_vectors-IsDistinct :
    (draws : ℕ → ℕ) (vectors : List Float) (d n_train : ℕ)
    → n_train < length vectors / d
    → (rows : List ℕ) × (sample_training_vectors draws vectors d n_train ≡ extract vectors d rows)
      × (length rows ≡ n_train)
      × All (λ x. x < length vectors / d) rows
      × IsDistinct rows
unfolding sample_training_vectors
sample_training_vectors-IsDistinct draws vectors d n_train fewer =
    let size : min n_train (length vectors / d) ≡ n_train = omega arith in
    let s =
      reservoir_from-IsSample draws n_train (length vectors / d - n_train) n_train
        (length vectors / d) (iota n_train 0) (omega arith)
        (record {
          count = length-iota n_train 0;
          below = iota-below n_train 0 n_train (omega arith);
          distinct = iota-IsDistinct n_train 0;
        }) in
    (
      reservoir_from draws n_train (length vectors / d - n_train) n_train (iota n_train 0),
      rw size (ground arith),
      s.count,
      s.below,
      s.distinct,
    )
