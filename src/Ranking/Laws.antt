-- ===== src/Ranking/Laws.antt =====
-- Order and content of the queue and of a sorted list.
use mathlib.Core.List.{reverse-cons}
use mathlib.Core.List.Perm
use dann.Prelude.{
  ℕ, suc, ◌+◌, ◌≤◌, ◌≡◌, refl, ◌∙◌, List, [], ◌∷◌, ◌++◌, reverse, append-nil, append_assoc, Perm,
  All, All-append, leb, length, if◌then◌else◌, arith, Bool-cases, inl, inr,
}
use dann.Ranking.{push, insert, sort, drain}

module _ {A : Type 0} (key : A → ℕ) where
  -- How many elements lie within the distance x.
  abbrev pub count_le : ℕ → List A → ℕ
  count_le x [] = 0
  count_le x (a ∷ l) = (if leb (key a) x then 1 else 0) + count_le x l

  abbrev pub IsDescending : List A → Type 0
  IsDescending [] = Unit
  IsDescending (a ∷ l) = All (λ b. key b ≤ key a) l × IsDescending l

  abbrev pub IsAscending : List A → Type 0
  IsAscending [] = Unit
  IsAscending (a ∷ l) = All (λ b. key a ≤ key b) l × IsAscending l

module _ {A : Type 0} (key : A → ℕ) where
  pub count_le-append :
      (x : ℕ) (l r : List A) → count_le key x (l ++ r) ≡ count_le key x l + count_le key x r
  count_le-append x [] r = omega arith
  count_le-append x (a ∷ l) r = omega (arith, count_le-append x l r)

  pub count_le-le-length : (x : ℕ) (l : List A) → count_le key x l ≤ length l
  count_le-le-length x [] = omega arith
  count_le-le-length x (a ∷ l) = ground (arith, count_le-le-length x l)

  pub count_le_full :
      (x m : ℕ) (l : List A) → m ≤ x → All (λ b. key b ≤ m) l → count_le key x l ≡ length l
  count_le_full x m [] h k = refl
  count_le_full x m (a ∷ l) h k = ground (arith, count_le_full x m l h k.1)

  pub All-le_mono : (m n : ℕ) (l : List A) → m ≤ n → All (λ b. key b ≤ m) l → All (λ b. key b ≤ n) l
  All-le_mono m n [] h k = tt
  All-le_mono m n (a ∷ l) h k = (omega arith, All-le_mono m n l h k.1)

  pub All-ge_mono : (m n : ℕ) (l : List A) → n ≤ m → All (λ b. m ≤ key b) l → All (λ b. n ≤ key b) l
  All-ge_mono m n [] h k = tt
  All-ge_mono m n (a ∷ l) h k = (omega arith, All-ge_mono m n l h k.1)

  All-push-le :
      (n : ℕ) (e : A) (q : List A)
      → key e ≤ n
      → All (λ b. key b ≤ n) q
      → All (λ b. key b ≤ n) (push key e q)
  unfolding push
  All-push-le n e [] h k = (h, tt)
  All-push-le n e (a ∷ q) h k = elim (Bool-cases (leb (key a) (key e))) [
    | inl y ↦ rw (y, push) (h, k)
    | inr z ↦ rw (z, push) (k.0, All-push-le n e q h k.1)
  ]

  pub push-IsDescending :
      (e : A) (q : List A) → IsDescending key q → IsDescending key (push key e q)
  unfolding push
  push-IsDescending e [] d = (tt, tt)
  push-IsDescending e (a ∷ q) d = elim (Bool-cases (leb (key a) (key e))) [
    | inl y ↦
        let below : key a ≤ key e = ground arith in
        rw (y, push) ((below, All-le_mono (key a) (key e) q below d.0), d)
    | inr z ↦ rw (z, push) (All-push-le (key a) e q (ground arith) d.0, push-IsDescending e q d.1)
  ]

  pub push-perm : (e : A) (q : List A) → Perm (push key e q) (e ∷ q)
  unfolding push
  push-perm e [] = Perm.rfl
  push-perm e (a ∷ q) = elim (Bool-cases (leb (key a) (key e))) [
    | inl y ↦ rw (y, push) Perm.rfl
    | inr z ↦ rw (z, push) (Perm.trans (Perm.cons a (push-perm e q)) (Perm.swap e a q))
  ]

  pub length-push : (e : A) (q : List A) → length (push key e q) ≡ suc (length q)
  unfolding push
  length-push e [] = refl
  length-push e (a ∷ q) = ground (arith, length-push e q)

  pub count_le-push :
      (x : ℕ) (e : A) (q : List A)
      → count_le key x (push key e q) ≡ (if leb (key e) x then 1 else 0) + count_le key x q
  unfolding push
  count_le-push x e [] = refl
  count_le-push x e (a ∷ q) = ground (arith, count_le-push x e q)

  All-insert-ge :
      (n : ℕ) (e : A) (l : List A)
      → n ≤ key e
      → All (λ b. n ≤ key b) l
      → All (λ b. n ≤ key b) (insert key e l)
  unfolding insert
  All-insert-ge n e [] h k = (h, tt)
  All-insert-ge n e (a ∷ l) h k = elim (Bool-cases (leb (key e) (key a))) [
    | inl y ↦ rw (y, insert) (h, k)
    | inr z ↦ rw (z, insert) (k.0, All-insert-ge n e l h k.1)
  ]

  insert-IsAscending : (e : A) (l : List A) → IsAscending key l → IsAscending key (insert key e l)
  unfolding insert
  insert-IsAscending e [] d = (tt, tt)
  insert-IsAscending e (a ∷ l) d = elim (Bool-cases (leb (key e) (key a))) [
    | inl y ↦
        let below : key e ≤ key a = ground arith in
        rw (y, insert) ((below, All-ge_mono (key a) (key e) l below d.0), d)
    | inr z ↦
        rw (z, insert) (All-insert-ge (key a) e l (ground arith) d.0, insert-IsAscending e l d.1)
  ]

  insert-perm : (e : A) (l : List A) → Perm (insert key e l) (e ∷ l)
  unfolding insert
  insert-perm e [] = Perm.rfl
  insert-perm e (a ∷ l) = elim (Bool-cases (leb (key e) (key a))) [
    | inl y ↦ rw (y, insert) Perm.rfl
    | inr z ↦ rw (z, insert) (Perm.trans (Perm.cons a (insert-perm e l)) (Perm.swap e a l))
  ]

  pub sort-IsAscending : (l : List A) → IsAscending key (sort key l)
  unfolding sort
  sort-IsAscending [] = tt
  sort-IsAscending (a ∷ l) = insert-IsAscending a (sort key l) (sort-IsAscending l)

  pub sort-perm : (l : List A) → Perm (sort key l) l
  unfolding sort
  sort-perm [] = Perm.rfl
  sort-perm (a ∷ l) = Perm.trans (insert-perm a (sort key l)) (Perm.cons a (sort-perm l))

  count_le-insert :
      (x : ℕ) (e : A) (l : List A)
      → count_le key x (insert key e l) ≡ (if leb (key e) x then 1 else 0) + count_le key x l
  unfolding insert
  count_le-insert x e [] = refl
  count_le-insert x e (a ∷ l) = ground (arith, count_le-insert x e l)

  pub count_le-sort : (x : ℕ) (l : List A) → count_le key x (sort key l) ≡ count_le key x l
  unfolding sort
  count_le-sort x [] = refl
  count_le-sort x (a ∷ l) = omega (arith, count_le-insert x a (sort key l), count_le-sort x l)

  -- A descending queue that is emptied into a list and reversed.
  snoc-IsAscending :
      (l : List A) (e : A)
      → IsAscending key l
      → All (λ b. key b ≤ key e) l
      → IsAscending key (l ++ e ∷ [])
  snoc-IsAscending [] e d k = (tt, tt)
  snoc-IsAscending (a ∷ l) e d k =
      (All-append (λ b. key a ≤ key b) l (e ∷ []) d.0 (k.0, tt), snoc-IsAscending l e d.1 k.1)

  All-reverse : (n : ℕ) (l : List A) → All (λ b. key b ≤ n) l → All (λ b. key b ≤ n) (reverse l)
  All-reverse n [] k = tt
  All-reverse n (a ∷ l) k =
      rw (reverse-cons a l) (All-append _ (reverse l) (a ∷ []) (All-reverse n l k.1) (k.0, tt))

  pub reverse-IsAscending : (q : List A) → IsDescending key q → IsAscending key (reverse q)
  reverse-IsAscending [] d = tt
  reverse-IsAscending (a ∷ q) d =
      rw (reverse-cons a q)
        (snoc-IsAscending (reverse q) a (reverse-IsAscending q d.1) (All-reverse (key a) q d.0))

  pub count_le-reverse : (x : ℕ) (l : List A) → count_le key x (reverse l) ≡ count_le key x l
  count_le-reverse x [] = refl
  count_le-reverse x (a ∷ l) =
      rw (reverse-cons a l)
        (omega (arith, count_le-append x (reverse l) (a ∷ []), count_le-reverse x l))

module _ {A : Type 0} where
  drain-append : (q result : List A) → drain q result ≡ reverse (result ++ q)
  unfolding drain
  drain-append [] result = rw append-nil
  drain-append (t ∷ q) result = drain-append q (result ++ t ∷ []) ∙ rw append_assoc

  pub drain-reverse : (q : List A) → drain q [] ≡ reverse q
  drain-reverse q = drain-append q []
