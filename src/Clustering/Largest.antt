-- ===== src/Clustering/Largest.antt =====
-- The search for the largest count.
use dann.Prelude.{
  ℕ, zero, suc, ◌+◌, ◌≤◌, ◌<◌, ◌≡◌, refl, none, some, List, [], ◌∷◌, get_or, length, ltb, arith,
  Bool-cases, inl, inr, dec_le, subst, sum,
}
use dann.Clustering.{largest_from}

-- c is the place of a largest element among the first n.
pub record IsLargest (xs : List ℕ) (n c : ℕ) : Type 0 where
  pub inside : c < n
  pub largest : (t : ℕ) → t < n → get_or xs t 0 ≤ get_or xs c 0

extend_IsLargest :
    (xs : List ℕ) (n c : ℕ)
    → ((t : ℕ) → t < n → get_or xs t 0 ≤ get_or xs c 0)
    → c < suc n
    → get_or xs n 0 ≤ get_or xs c 0
    → IsLargest xs (suc n) c
extend_IsLargest xs n c h inside last = record {
  inside = inside;
  largest = λ t below. elim (dec_le n t) [
    | yes after ↦ let e : n ≡ t = omega arith in subst (λ u. get_or xs u 0 ≤ get_or xs c 0) e last
    | no before ↦ h t (omega arith)
  ];
}

largest_from-some :
    (xs : List ℕ) (n j m c : ℕ)
    → j + n ≡ m
    → IsLargest xs j c
    → (c' : ℕ) × (largest_from xs n j (some c) ≡ some c') × IsLargest xs m c'
unfolding largest_from
largest_from-some xs zero j m c e h =
    let same : j ≡ m = omega arith in (c, refl, subst (λ u. IsLargest xs u c) same h)
largest_from-some xs (suc n) j m c e h = elim (Bool-cases (ltb (get_or xs c 0) (get_or xs j 0))) [
  | inl more ↦
      let above : get_or xs c 0 < get_or xs j 0 = ground arith in
      rw more (
        largest_from-some xs n (suc j) m j (omega arith) (
          extend_IsLargest xs j j (λ t p. omega (arith, h.largest t p)) (omega arith)
            (omega arith)))
  | inr less ↦ rw less (
      largest_from-some xs n (suc j) m c (omega arith)
        (extend_IsLargest xs j c h.largest (omega (arith, h.inside)) (ground arith)))
]

-- The search over a non-empty array finds a largest element.
pub largest_from-IsLargest :
    (xs : List ℕ) (n : ℕ) → 0 < n → (c : ℕ) × (largest_from xs n 0 none ≡ some c) × IsLargest xs n c
unfolding largest_from
largest_from-IsLargest xs zero h = absurd (omega arith)
largest_from-IsLargest xs (suc n) h =
    largest_from-some xs n 1 (suc n) 0 (omega arith)
      (extend_IsLargest xs 0 0 (λ t p. omega arith) (omega arith) (omega arith))

-- If all are at most 1 and one of them is 0, the sum is below the length.
small_sum :
    (xs : List ℕ) (i : ℕ)
    → i < length xs
    → get_or xs i 0 ≡ 0
    → ((t : ℕ) → t < length xs → get_or xs t 0 ≤ 1)
    → sum xs < length xs
small_sum [] i h e small = absurd (omega arith)
small_sum (x ∷ xs) zero h e small = omega (arith, rest xs λ t p. small (suc t) (omega arith))
  where
    rest : (xs : List ℕ) → ((t : ℕ) → t < length xs → get_or xs t 0 ≤ 1) → sum xs ≤ length xs
    rest [] small = omega arith
    rest (y ∷ ys) small =
        omega (arith, small 0 (omega arith), rest ys λ t p. small (suc t) (omega arith))
small_sum (x ∷ xs) (suc i) h e small = omega (
  arith,
  small 0 (omega arith),
  small_sum xs i (omega arith) e (λ t p. small (suc t) (omega arith)),
)

-- If the sum is at least the length and an element is 0, a largest element is at least 2.
pub IsLargest-two :
    (xs : List ℕ) (i c : ℕ)
    → IsLargest xs (length xs) c
    → i < length xs
    → get_or xs i 0 ≡ 0
    → length xs ≤ sum xs
    → 2 ≤ get_or xs c 0
IsLargest-two xs i c l h e enough = elim (dec_le 2 (get_or xs c 0)) [
  | yes p ↦ p
  | no p ↦ absurd (omega (arith, small_sum xs i h e (λ t q. omega (arith, l.largest t q))))
]
