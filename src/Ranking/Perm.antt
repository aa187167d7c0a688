-- ===== src/Ranking/Perm.antt =====
-- The k nearest do not depend on the order of the candidates, and are found through a map that keeps
-- the distances.
use mathlib.Core.Logic.{∥∥₁_elim}
use mathlib.Core.List.{Permᴰ, map-append}
use mathlib.Core.List.Perm
use native.Mathlib.Nat.{ℕ_set}
use dann.Prelude.{
  ℕ, suc, ◌≡◌, refl, ap, ◌∙◌, List, [], ◌∷◌, map, Perm, length, length-map, All, arith, Bool-cases,
  leb, inl, inr, if◌then◌else◌,
}
use dann.Ranking.{push}
use dann.Ranking.Laws.{count_le}
use dann.Ranking.Nearest.{IsNearest, Holds}

module _ {A : Type 0} where
  length-permᴰ : {l r : List A} → Permᴰ l r → length l ≡ length r
  length-permᴰ Permᴰ.nil = refl
  length-permᴰ (Permᴰ.cons e p) = ap suc (length-permᴰ p)
  length-permᴰ (Permᴰ.swap e f) = refl
  length-permᴰ (Permᴰ.trans p q) = length-permᴰ p ∙ length-permᴰ q

  pub length-perm : (l r : List A) → Perm l r → length l ≡ length r
  length-perm l r p = ∥∥₁_elim p (ℕ_set _ _) length-permᴰ

module _ {A : Type 0} (key : A → ℕ) where
  abbrev one_le : ℕ → A → ℕ
  one_le x a = if leb (key a) x then 1 else 0

  count_le-permᴰ : (x : ℕ) {l r : List A} → Permᴰ l r → count_le key x l ≡ count_le key x r
  count_le-permᴰ x Permᴰ.nil = refl
  count_le-permᴰ x (Permᴰ.cons e p) = omega (arith, ap (one_le x) e, count_le-permᴰ x p)
  count_le-permᴰ x (Permᴰ.swap e f) = omega (arith, ap (one_le x) e, ap (one_le x) f)
  count_le-permᴰ x (Permᴰ.trans p q) = count_le-permᴰ x p ∙ count_le-permᴰ x q

  pub count_le-perm : (x : ℕ) (l r : List A) → Perm l r → count_le key x l ≡ count_le key x r
  count_le-perm x l r p = ∥∥₁_elim p (ℕ_set _ _) (count_le-permᴰ x)

  pub perm-IsNearest :
      (k : ℕ) (cs ds result : List A)
      → Perm cs ds
      → IsNearest key k cs result
      → IsNearest key k ds result
  perm-IsNearest k cs ds result p h = record {
    counts = λ x. omega (arith, h.counts x, count_le-perm x cs ds p);
    size = omega (arith, h.size, length-perm cs ds p);
    left = h.left;
    split = Perm.trans h.split p;
  }

  pub perm-Holds : (k : ℕ) (cs ds q : List A) → Perm cs ds → Holds key k cs q → Holds key k ds q
  perm-Holds k cs ds q p h = record {
    descending = h.descending;
    nearest = perm-IsNearest k cs ds q p h.nearest;
  }

  -- What holds of all candidates holds of what a search keeps.
  push-All : (P : A → Type 0) (e : A) (q : List A) → P e → All P q → All P (push key e q)
  unfolding push
  push-All P e [] h hs = (h, tt)
  push-All P e (a ∷ q) h hs = elim (Bool-cases (leb (key a) (key e))) [
    | inl y ↦ rw (y, push) (h, hs)
    | inr z ↦ rw (z, push) (hs.0, push-All P e q h hs.1)
  ]

module _ {A B : Type 0} (key : A → ℕ) (key' : B → ℕ) (f : A → B)
    (same : (a : A) → key' (f a) ≡ key a) where
  count_le-map : (x : ℕ) (l : List A) → count_le key' x (map f l) ≡ count_le key x l
  count_le-map x [] = refl
  count_le-map x (a ∷ l) =
      omega (arith, count_le-map x l, ap {B = ℕ} (λ (n : ℕ). if leb n x then 1 else 0) (same a))

  pub map-IsNearest :
      (k : ℕ) (cs result : List A)
      → IsNearest key k cs result
      → IsNearest key' k (map f cs) (map f result)
  map-IsNearest k cs result h = record {
    counts = λ x. omega (arith, h.counts x, count_le-map x cs, count_le-map x result);
    size = omega (arith, h.size, length-map cs f, length-map result f);
    left = map f h.left;
    split = rw map-append at (Perm.map f h.split);
  }
