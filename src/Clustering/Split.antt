-- ===== src/Clustering/Split.antt =====
-- What split_clusters does to the counts.
use dann.Prelude.{
  ℕ, zero, suc, ◌+◌, ◌-◌, ◌/◌, ◌≤◌, ◌<◌, ◌≡◌, ◌≢◌, refl, ◌∙◌, ap, List, [], ◌∷◌, get_or, set,
  length, length-set, ◌==◌, if◌then◌else◌, arith, inl, inr, subst, sym, ◌⊎◌, ℕ_discrete, sum,
  sum-set, get_or-set_self, get_or-set_ne,
}

-- How many clusters are empty.
abbrev pub count_empty : List ℕ → ℕ
count_empty [] = 0
count_empty (x ∷ xs) = (if x == 0 then 1 else 0) + count_empty xs

count_empty-set :
    (xs : List ℕ) (i v : ℕ)
    → i < length xs
    → count_empty (set xs i v) + (if get_or xs i 0 == 0 then 1 else 0)
      ≡ count_empty xs + (if v == 0 then 1 else 0)
count_empty-set [] i v h = absurd (omega arith)
count_empty-set (x ∷ xs) zero v h = omega arith
count_empty-set (x ∷ xs) (suc i) v h = omega (arith, count_empty-set xs i v (omega arith))

pub count_empty_none :
    (xs : List ℕ) → ((t : ℕ) → t < length xs → 1 ≤ get_or xs t 0) → count_empty xs ≡ 0
count_empty_none [] h = refl
count_empty_none (x ∷ xs) h =
    ground (arith, h 0 (omega arith), count_empty_none xs (λ t p. h (suc t) (omega arith)))

-- The counts after cluster cj has given half of its points to the empty cluster i.
abbrev pub halved : List ℕ → ℕ → ℕ → List ℕ
halved hs i cj =
    set (set hs i (get_or hs cj 0 / 2)) cj
      (get_or (set hs i (get_or hs cj 0 / 2)) cj 0 - get_or hs cj 0 / 2)

module _ (hs : List ℕ) (i cj : ℕ) (inside : i < length hs) (inside' : cj < length hs)
    (empty : get_or hs i 0 ≡ 0) where
  pub length-halved : length (halved hs i cj) ≡ length hs
  length-halved = length-set (set hs i (get_or hs cj 0 / 2)) cj _ ∙ length-set hs i _

  abbrev half : ℕ
  half = get_or hs cj 0 / 2

  -- the read of hassign[cj] after the write of hassign[i]
  read_self : i ≡ cj → get_or (set hs i half) cj 0 ≡ half
  read_self e =
      subst (λ t. get_or (set hs i half) t 0 ≡ half) e (get_or-set_self hs i half 0 inside)

  read_other : i ≢ cj → get_or (set hs i half) cj 0 ≡ get_or hs cj 0
  read_other ne = get_or-set_ne hs i cj half 0 ne

  inside_set : cj < length (set hs i half)
  inside_set = omega (arith, length-set hs i half)

  pub sum-halved : sum (halved hs i cj) ≡ sum hs
  sum-halved = elim (ℕ_discrete i cj) [
    | yes e ↦ omega (
      arith,
      sum-set hs i half inside,
      sum-set (set hs i half) cj _ inside_set,
      read_self e,
      ap {B = ℕ} (λ (t : ℕ). get_or hs t 0) e,
    )
    | no ne ↦
        omega
          (arith, sum-set hs i half inside, sum-set (set hs i half) cj _ inside_set, read_other ne)
  ]

  halved_cj : i ≢ cj → get_or (halved hs i cj) cj 0 ≡ get_or hs cj 0 - half
  halved_cj ne = get_or-set_self (set hs i half) cj _ 0 inside_set ∙ rw (read_other ne)

  halved_i : i ≢ cj → get_or (halved hs i cj) i 0 ≡ half
  halved_i ne =
      get_or-set_ne (set hs i half) cj i _ 0 (λ e. ne (sym e)) ∙ get_or-set_self hs i half 0 inside

  halved_other : (t : ℕ) → i ≢ t → cj ≢ t → get_or (halved hs i cj) t 0 ≡ get_or hs t 0
  halved_other t p q = get_or-set_ne _ cj t _ 0 q ∙ get_or-set_ne hs i t _ 0 p

  -- One empty cluster less, if the large one has two points at least.
  pub count_empty-halved : 2 ≤ get_or hs cj 0 → suc (count_empty (halved hs i cj)) ≡ count_empty hs
  count_empty-halved two =
      let ne : i ≢ cj = λ e. absurd (omega (arith, ap {B = ℕ} (λ (t : ℕ). get_or hs t 0) e)) in
      ground (
        arith,
        count_empty-set hs i half inside,
        count_empty-set (set hs i half) cj (get_or (set hs i half) cj 0 - half) inside_set,
        read_other ne,
      )

  -- Nothing that is not empty becomes empty, and cluster i does not stay so.
  pub halved_pos :
      2 ≤ get_or hs cj 0 → (t : ℕ) → (i ≡ t) ⊎ (1 ≤ get_or hs t 0) → 1 ≤ get_or (halved hs i cj) t 0
  halved_pos two t h =
      let ne : i ≢ cj = λ e. absurd (omega (arith, ap {B = ℕ} (λ (t : ℕ). get_or hs t 0) e)) in
      elim (ℕ_discrete i t) [
        | yes e ↦ subst (λ u. 1 ≤ get_or (halved hs i cj) u 0) e (omega (arith, halved_i ne))
        | no p ↦ elim (ℕ_discrete cj t) [
          | yes e ↦ subst (λ u. 1 ≤ get_or (halved hs i cj) u 0) e (omega (arith, halved_cj ne))
          | no q ↦ elim h [ inl e ↦ absurd (p e) | inr k ↦ omega (arith, halved_other t p q, k) ]
        ]
      ]
