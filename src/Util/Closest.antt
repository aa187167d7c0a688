-- ===== src/Util/Closest.antt =====
-- The one nearest row.
use dann.Prelude.{
  ℕ, zero, suc, ◌+◌, ◌*◌, ◌≤◌, ◌<◌, ◌≡◌, refl, ◌⊎◌, inl, inr, List, drop, ltb, arith, Bool-cases,
  dec_le, subst,
}
use dann.Types.{Float, float_max}
use dann.Util.{l2_distance, closest_from, find_closest}

-- r is the first of the rows from i up to j whose distance is least, and that is less than m.
pub record IsFirstLeast (dis : ℕ → Float) (m : Float) (i j r : ℕ) : Type 0 where
  pub from : i ≤ r
  pub below : r < j
  pub near : dis r < m
  pub least : (t : ℕ) → i ≤ t → t < j → dis r ≤ dis t
  pub first : (t : ℕ) → i ≤ t → t < r → dis r < dis t

-- The rows from i on are row i and those after it.
from_step :
    (P : ℕ → Type 0) (i j : ℕ)
    → P i
    → ((t : ℕ) → suc i ≤ t → t < j → P t)
    → (t : ℕ) → i ≤ t
    → t < j
    → P t
from_step P i j now later t from below = elim (dec_le (suc i) t) [
  | yes after ↦ later t after below
  | no here ↦ let e : i ≡ t = omega arith in subst P e now
]

-- No row up to j is nearer than m.
abbrev pub NoneNear : (ℕ → Float) → Float → ℕ → ℕ → Type 0
NoneNear dis m i j = (t : ℕ) → i ≤ t → t < j → m ≤ dis t

take_round :
    (dis : ℕ → Float) (i j : ℕ) (m : Float) (out : ℕ)
    → dis i < m
    → i < j
    → ((out ≡ i) × NoneNear dis (dis i) (suc i) j) ⊎ IsFirstLeast dis (dis i) (suc i) j out
    → IsFirstLeast dis m i j out
take_round dis i j m out near inside (inl (e, rest)) = rw e (record {
  from = omega arith;
  below = inside;
  near = near;
  least = from_step (λ t. dis i ≤ dis t) i j (omega arith) rest;
  first = λ t p q. absurd (omega arith);
})
take_round dis i j m out near inside (inr f) = record {
  from = omega (arith, f.from);
  below = f.below;
  near = omega (arith, f.near);
  least = from_step (λ t. dis out ≤ dis t) i j (omega (arith, f.near)) f.least;
  first = from_step (λ t. dis out < dis t) i out f.near f.first;
}

skip_round :
    (dis : ℕ → Float) (i j : ℕ) (m : Float) (out : ℕ)
    → m ≤ dis i
    → IsFirstLeast dis m (suc i) j out
    → IsFirstLeast dis m i j out
skip_round dis i j m out far f = record {
  from = omega (arith, f.from);
  below = f.below;
  near = f.near;
  least = from_step (λ t. dis out ≤ dis t) i j (omega (arith, f.near)) f.least;
  first = from_step (λ t. dis out < dis t) i out (omega (arith, f.near)) f.first;
}

pub closest_from-cases :
    (dis : ℕ → Float) (n i j : ℕ) (m : Float) (r : ℕ)
    → i + n ≡ j
    → ((closest_from dis n i m r ≡ r) × NoneNear dis m i j)
      ⊎ IsFirstLeast dis m i j (closest_from dis n i m r)
unfolding closest_from
closest_from-cases dis zero i j m r e = inl (refl, λ t p q. absurd (omega arith))
closest_from-cases dis (suc n) i j m r e = elim (Bool-cases (ltb (dis i) m)) [
  | inl near ↦ rw near (
      inr (
        take_round dis i j m (closest_from dis n (suc i) (dis i) i) (ground arith) (omega arith)
          (closest_from-cases dis n (suc i) j (dis i) i (omega arith))))
  | inr far ↦
      let beyond : m ≤ dis i = ground arith in
      rw far (elim (closest_from-cases dis n (suc i) j m r (omega arith)) [
        | inl (same, rest) ↦ inl (same, from_step (λ t. m ≤ dis t) i j beyond rest)
        | inr f ↦ inr (skip_round dis i j m (closest_from dis n (suc i) m r) beyond f)
      ])
]

-- If a row is nearer than the largest float, the search returns the first of the nearest rows.
pub closest_from-IsFirstLeast :
    (dis : ℕ → Float) (n t : ℕ)
    → t < n
    → dis t < float_max
    → IsFirstLeast dis float_max 0 n (closest_from dis n 0 float_max 0)
closest_from-IsFirstLeast dis n t below near =
    elim (closest_from-cases dis n 0 n float_max 0 (omega arith)) [
      | inl (same, rest) ↦ absurd (omega (arith, rest t (omega arith) below))
      | inr f ↦ f
    ]

-- The index is one of the n rows, even if none is nearer than the largest float.
pub closest_from-lt : (dis : ℕ → Float) (n : ℕ) → 0 < n → closest_from dis n 0 float_max 0 < n
closest_from-lt dis n h = elim (closest_from-cases dis n 0 n float_max 0 (omega arith)) [
  | inl (same, rest) ↦ omega (arith, same)
  | inr f ↦ f.below
]

-- find_closest returns the first of the n rows whose distance from y is least, provided that some
-- row is nearer than the largest float.
pub find_closest-IsFirstLeast :
    (fvec_l2sqr : List Float → List Float → Float) (x y : List Float) (d n t : ℕ)
    → t < n
    → l2_distance fvec_l2sqr (drop (t * d) x) y d < float_max
    → IsFirstLeast
        (λ i. l2_distance fvec_l2sqr (drop (i * d) x) y d)
        float_max
        0
        n
        (find_closest fvec_l2sqr x y d n)
unfolding find_closest
find_closest-IsFirstLeast f x y d n t = closest_from-IsFirstLeast _ n t
