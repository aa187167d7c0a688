-- ===== src/DistributedIvf/Build/Nearest.antt =====
-- Which centroid the first pass of build_index gives to each vector.
use native.Mathlib.Nat.{zero-add, suc-add}
use dann.Prelude.{
  ℕ, zero, suc, ◌+◌, ◌*◌, ◌≡◌, ◌⊎◌, subst, refl, ◌∙◌, List, [], ◌∷◌, take, drop, get_or, ◌==◌,
  if◌then◌else◌, arith,
}
use dann.Types.{Float, FloatOps, float_max}
use dann.Util.{closest_from, l2_distance}
use dann.Util.Closest.{closest_from-cases, IsFirstLeast, NoneNear}
use dann.Clustering.Train.{Kernels}
use dann.DistributedIvf.Build.{distance_of, four_squares, find_closest_optimized, assign_from}

-- (a 0 - b 0)² + ... + (a 3 - b 3)², summed from the left
abbrev pub squares_of : FloatOps → (ℕ → Float) → (ℕ → Float) → Float
squares_of ops a b =
    ops.add
      (ops.add
        (ops.add (ops.mul (ops.sub (a 0) (b 0)) (ops.sub (a 0) (b 0)))
          (ops.mul (ops.sub (a 1) (b 1)) (ops.sub (a 1) (b 1))))
        (ops.mul (ops.sub (a 2) (b 2)) (ops.sub (a 2) (b 2))))
      (ops.mul (ops.sub (a 3) (b 3)) (ops.sub (a 3) (b 3)))

-- The squared distance of row j of the centroids from row i of the vectors: for 4 and for 8 dimensions
-- the sums of the squares of the differences, and fvec_L2sqr of the two rows for others.
abbrev pub row_distance : Kernels → List Float → List Float → ℕ → ℕ → ℕ → Float
row_distance lib centroids vectors d i j =
    let four = λ (k : ℕ).
      squares_of lib.ops (λ t. get_or centroids (j * d + (k + t)) 0)
        (λ t. get_or vectors (i * d + (k + t)) 0) in
    if d == 4
    then four 0
    else if d == 8
    then lib.ops.add (lib.ops.add 0 (four 0)) (four 4)
    else lib.fvec_l2sqr (take d (drop (j * d) centroids)) (take d (drop (i * d) vectors))

get_or-drop : (l : List Float) (n m : ℕ) → get_or (drop n l) m 0 ≡ get_or l (n + m) 0
get_or-drop l zero m = rw zero-add
get_or-drop [] (suc n) m = refl
get_or-drop (x ∷ l) (suc n) m = rw suc-add (get_or-drop l n m)

four_squares-drop :
    (ops : FloatOps) (c y : List Float) (n m : ℕ)
    → four_squares ops (drop n c) (drop m y)
      ≡ squares_of ops (λ t. get_or c (n + t) 0) (λ t. get_or y (m + t) 0)
unfolding four_squares
four_squares-drop ops c y n m =
    λ i. squares_of ops (λ t. get_or-drop c n t i) (λ t. get_or-drop y m t i)

four_squares-drop_4 :
    (ops : FloatOps) (c y : List Float) (n m : ℕ)
    → four_squares ops (drop 4 (drop n c)) (drop 4 (drop m y))
      ≡ squares_of ops (λ t. get_or c (n + (4 + t)) 0) (λ t. get_or y (m + (4 + t)) 0)
four_squares-drop_4 ops c y n m = four_squares-drop ops (drop n c) (drop m y) 4 4 ∙ λ i.
    squares_of ops (λ t. get_or-drop c n (4 + t) i) (λ t. get_or-drop y m (4 + t) i)

distance_of-row_distance :
    (lib : Kernels) (centroids vectors : List Float) (d i j : ℕ)
    → distance_of lib centroids (drop (i * d) vectors) d j
      ≡ row_distance lib centroids vectors d i j
unfolding distance_of l2_distance
distance_of-row_distance lib centroids vectors d i j =
    let four = four_squares-drop lib.ops centroids vectors (j * d) (i * d) in
    let next = four_squares-drop_4 lib.ops centroids vectors (j * d) (i * d) in
    λ p.
      if d == 4
      then four p
      else if d == 8
      then lib.ops.add (lib.ops.add 0 (four p)) (next p)
      else lib.fvec_l2sqr (take d (drop (j * d) centroids)) (take d (drop (i * d) vectors))

-- From vector i on, each has been given the first of the n centroids that are nearest to it; or
-- centroid 0, where none is nearer than the largest float.
abbrev pub AreNearest : Kernels → List Float → List Float → ℕ → ℕ → List ℕ → ℕ → Type 0
AreNearest lib centroids vectors d n [] i = Unit
AreNearest lib centroids vectors d n (a ∷ assigned) i =
    (((a ≡ 0) × NoneNear (row_distance lib centroids vectors d i) float_max 0 n)
      ⊎ IsFirstLeast (row_distance lib centroids vectors d i) float_max 0 n a)
    × AreNearest lib centroids vectors d n assigned (suc i)

find_closest_optimized-cases :
    (lib : Kernels) (centroids vectors : List Float) (d n i : ℕ)
    → let a = find_closest_optimized lib centroids (drop (i * d) vectors) d n in
      ((a ≡ 0) × NoneNear (row_distance lib centroids vectors d i) float_max 0 n)
      ⊎ IsFirstLeast (row_distance lib centroids vectors d i) float_max 0 n a
unfolding find_closest_optimized
find_closest_optimized-cases lib centroids vectors d n i =
    subst
      (λ (dis : ℕ → Float).
        ((closest_from (distance_of lib centroids (drop (i * d) vectors) d) n 0 float_max 0 ≡ 0)
          × NoneNear dis float_max 0 n)
        ⊎ IsFirstLeast dis float_max 0 n
            (closest_from (distance_of lib centroids (drop (i * d) vectors) d) n 0 float_max 0))
      (λ p j. distance_of-row_distance lib centroids vectors d i j p)
      (closest_from-cases (distance_of lib centroids (drop (i * d) vectors) d) n 0 n float_max 0
        (omega arith))

pub assign_from-AreNearest :
    (lib : Kernels) (centroids vectors : List Float) (d n m i : ℕ)
    → AreNearest lib centroids vectors d n
        (assign_from (λ y. find_closest_optimized lib centroids y d n) vectors d m i)
        i
unfolding assign_from
assign_from-AreNearest lib centroids vectors d n zero i = tt
assign_from-AreNearest lib centroids vectors d n (suc m) i = (
  find_closest_optimized-cases lib centroids vectors d n i,
  assign_from-AreNearest lib centroids vectors d n m (suc i),
)
