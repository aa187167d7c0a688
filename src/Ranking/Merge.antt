-- ===== src/Ranking/Merge.antt =====
-- The nearest of several searches: sorting what they found and keeping the first k.
use mathlib.Core.List.{perm_append_comm}
use mathlib.Core.List.Perm
use dann.Prelude.{
  ℕ, zero, suc, ◌≤◌, ◌≡◌, refl, min, false, List, [], ◌∷◌, ◌++◌, append_assoc, take, drop,
  take-append-drop, length-take, leb, arith, All, Perm, Bool-cases, inl, inr,
}
use dann.Ranking.{sort}
use dann.Ranking.Laws.{IsAscending, count_le, sort-IsAscending, sort-perm}
use dann.Ranking.Nearest.{IsNearest}
use dann.Ranking.Perm.{perm-IsNearest}

module _ {A : Type 0} (key : A → ℕ) where
  count_le_zero :
      (x : ℕ) (a : A) (l : List A)
      → leb (key a) x ≡ false
      → All (λ b. key a ≤ key b) l
      → count_le key x l ≡ 0
  count_le_zero x a [] far h = refl
  count_le_zero x a (b ∷ l) far h = ground (arith, count_le_zero x a l far h.1, h.0)

  count_le-take :
      (x k : ℕ) (l : List A)
      → IsAscending key l
      → count_le key x (take k l) ≡ min k (count_le key x l)
  count_le-take x zero l h = omega arith
  count_le-take x (suc k) [] h = omega arith
  count_le-take x (suc k) (a ∷ l) h = elim (Bool-cases (leb (key a) x)) [
    | inl e ↦ rw e (omega (arith, count_le-take x k l h.1))
    | inr e ↦ rw e (omega (arith, count_le-take x k l h.1, count_le_zero x a l e h.0))
  ]

  -- The first k of a sorted list are its k nearest elements.
  pub take-sort-IsNearest : (k : ℕ) (l : List A) → IsNearest key k l (take k (sort key l))
  take-sort-IsNearest k l =
      perm-IsNearest key k (sort key l) l (take k (sort key l)) (sort-perm key l) (record {
        counts = λ x. count_le-take x k (sort key l) (sort-IsAscending key l);
        size = length-take k (sort key l);
        left = drop k (sort key l);
        split = rw (take-append-drop k (sort key l)) Perm.rfl;
      })

pub swap_front : {A : Type 0} (a b r : List A) → Perm (a ++ (b ++ r)) ((b ++ a) ++ r)
swap_front a b r = rw (← append_assoc) (Perm.append_right r (perm_append_comm a b))

pub swap_middle : {A : Type 0} (a b r : List A) → Perm (a ++ (b ++ r)) (b ++ (a ++ r))
swap_middle a b r = rw (← append_assoc, ← append_assoc) (Perm.append_right r (perm_append_comm a b))
