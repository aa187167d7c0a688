-- ===== src/DistributedIvf/Numbers.antt =====
-- The numbers of lists and of probes.
use dann.Prelude.{
  ℕ, zero, suc, ◌+◌, ◌*◌, ◌/◌, ◌≤◌, ◌<◌, ◌≡◌, refl, min, ltb, leb, if◌then◌else◌, arith, Bool-cases,
  inl, inr, dec_le,
}
use dann.Types.{Float}

-- The integer part of the square root.
unfoldable pub square_root : ℕ → ℕ
square_root zero = 0
square_root (suc n) = let r = square_root n in if leb ((r + 1) * (r + 1)) (suc n) then r + 1 else r

-- `8 * sqrt(N)` converted to an integer is the integer part of the root of 64 N.
unfoldable pub get_nlist : ℕ → ℕ
get_nlist n =
    if ltb n 1000000
    then square_root (64 * n)
    else if ltb n 10000000
    then 65536
    else if ltb n 100000000
    then 262144
    else if ltb n 1000000000
    then 1048576
    else n

-- The literals are doubles: a float reaches 0.95 from the pattern 0x3f733334 on, and 0.90 from
-- 0x3f666667 on. 0.90f, the only argument in the program, is the float 0x3f666666.
unfoldable pub determine_nprobe : ℕ → Float → ℕ
determine_nprobe nlist recall_target =
    if leb 0x3f733334 recall_target
    then min (nlist / 4) 256
    else if leb 0x3f666667 recall_target
    then min (nlist / 8) 128
    else min (nlist / 16) 64

abbrev pub default_recall : Float
default_recall = 0x3f666666

pub square_root_bounds :
    (n : ℕ) → (square_root n * square_root n ≤ n) × (n < (square_root n + 1) * (square_root n + 1))
unfolding square_root
square_root_bounds zero = (omega arith, omega arith)
square_root_bounds (suc n) =
    let r = square_root n in
    let (below, above) = square_root_bounds n in
    elim (Bool-cases (leb ((r + 1) * (r + 1)) (suc n))) [
      | inl y ↦ rw y (ground arith, omega (arith, above))
      | inr z ↦ rw z (omega (arith, below), ground arith)
    ]

-- The square of a larger number, multiplied out for the arithmetic.
square_le : (a b : ℕ) → a ≤ b → a * a ≤ b * b
square_le a b h = grind arith

few_lists : (n : ℕ) → 0 < n → n ≤ 61 → (n + 1) * (n + 1) ≤ 64 * n
few_lists n h k = grind arith

many_lists : (n : ℕ) → 62 ≤ n → 64 * n < (n + 1) * (n + 1)
many_lists n h = grind arith

-- With up to 61 vectors there are more lists than vectors.
pub get_nlist_few : (n : ℕ) → 0 < n → n ≤ 61 → n < get_nlist n
unfolding get_nlist
get_nlist_few n h k = elim (dec_le (square_root (64 * n)) n) [
  | yes less ↦ absurd (
      omega (
        arith,
        (square_root_bounds (64 * n)).1,
        few_lists n h k,
        square_le (square_root (64 * n) + 1) (n + 1) (omega arith),
      ))
  | no more ↦ ground arith
]

-- From 62 vectors on there are never more lists than vectors.
get_nlist-le : (n : ℕ) → 62 ≤ n → get_nlist n ≤ n
unfolding get_nlist
get_nlist-le n h = elim (dec_le (square_root (64 * n)) n) [
  | yes less ↦ ground arith
  | no more ↦ absurd (
      omega (
        arith,
        (square_root_bounds (64 * n)).0,
        many_lists n h,
        square_le (n + 1) (square_root (64 * n)) (omega arith),
      ))
]

-- At the recall that the build asks for, the number of probes is a 16th of the lists, up to 64, as
-- for any lower recall; below 16 lists it is 0.
pub determine_nprobe_default :
    (nlist : ℕ)
    → (determine_nprobe nlist default_recall ≡ min (nlist / 16) 64)
      × (nlist < 16 → determine_nprobe nlist default_recall ≡ 0)
unfolding determine_nprobe
determine_nprobe_default nlist = (refl, λ h. omega arith)
