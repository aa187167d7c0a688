-- ===== src/Dict.antt =====
-- std::unordered_map as the components use it: a list of entries. Nothing but iteration depends on
-- the order of the entries, which the standard leaves open.
use dann.Prelude.{
  ℤ, pos, negsuc, ◌+◌, ltb, false, Bool-cases, inl, inr, ℕ, ◌≡◌, refl, ◌↔◌, Bool, true, Option,
  none, some, List, [], ◌∷◌, if◌then◌else◌, arith, ◌==◌, ==_iff,
}

-- std::equal_to of a key type.
pub record Key {ℓ} (K : Type ℓ) : Type ℓ where
  pub same : K → K → Bool
  pub same_iff : (j k : K) → (same j k ≡ true) ↔ (j ≡ k)

abbrev pub same_key {ℓ} : {K : Type ℓ} ⦃o : Key K⦄ → K → K → Bool
same_key ⦃o⦄ = o.same

instance abbrev pub number_key : Key ℕ
number_key = record { same = ◌==◌; same_iff = ==_iff }

abbrev pub same_int : ℤ → ℤ → Bool
same_int (pos m) (pos n) = m == n
same_int (negsuc m) (negsuc n) = m == n
same_int (pos m) (negsuc n) = false
same_int (negsuc m) (pos n) = false

pub same_int_iff : (i j : ℤ) → (same_int i j ≡ true) ↔ (i ≡ j)
same_int_iff (pos m) (pos n) = ground (arith, ==_iff m n)
same_int_iff (negsuc m) (negsuc n) = ground (arith, ==_iff m n)
same_int_iff (pos m) (negsuc n) = ground arith
same_int_iff (negsuc m) (pos n) = ground arith

instance abbrev pub int_key : Key ℤ
int_key = record { same = same_int; same_iff = same_int_iff }

-- std::string as the list of its characters
abbrev pub Text : Type 0
Text = List ℕ

abbrev pub same_text : Text → Text → Bool
same_text [] [] = true
same_text [] (d ∷ r) = false
same_text (c ∷ l) [] = false
same_text (c ∷ l) (d ∷ r) = elim (c == d) [ true ↦ same_text l r | false ↦ false ]

-- A digit of a number written in hexadecimal.
abbrev pub hex_digit : ℕ → ℕ
hex_digit n = if ltb n 10 then 48 + n else 87 + n

pub same_text→eq : (l r : Text) → same_text l r ≡ true → l ≡ r
same_text→eq [] [] e = refl
same_text→eq [] (d ∷ r) e = ground arith
same_text→eq (c ∷ l) [] e = ground arith
same_text→eq (c ∷ l) (d ∷ r) e = elim (Bool-cases (c == d)) [
  | inl y ↦ let h : c ≡ d = (==_iff c d).0 y in rw (h, same_text→eq l r (rw (y, same_text) at e))
  | inr z ↦ ground (arith, (rw (z, same_text) at e))
]

pub same_text_refl : (l : Text) → same_text l l ≡ true
same_text_refl [] = refl
same_text_refl (c ∷ l) =
    let y : (c == c) ≡ true = (==_iff c c).1 refl in rw (y, same_text) (same_text_refl l)

instance abbrev pub text_key : Key Text
text_key = record {
  same = same_text;
  same_iff = λ l r. (same_text→eq l r, λ e. rw e (same_text_refl r));
}

pub same_key_refl {ℓ} : {K : Type ℓ} ⦃o : Key K⦄ (k : K) → same_key k k ≡ true
same_key_refl ⦃o⦄ k = (o.same_iff k k).1 refl

module _ {ℓ κ} {K : Type ℓ} {V : Type κ} ⦃o : Key K⦄ where
  -- find
  unfoldable pub find : K → List (K × V) → Option V
  find k [] = none
  find k ((j, v) ∷ m) = if same_key j k then some v else find k m

  -- m[k] = v
  unfoldable pub assign : K → V → List (K × V) → List (K × V)
  assign k v [] = (k, v) ∷ []
  assign k v ((j, w) ∷ m) = if same_key j k then (j, v) ∷ m else (j, w) ∷ assign k v m

  unfoldable pub erase : K → List (K × V) → List (K × V)
  erase k [] = []
  erase k ((j, w) ∷ m) = if same_key j k then erase k m else (j, w) ∷ erase k m

  pub find-assign :
      (k j : K) (v : V) (m : List (K × V))
      → find j (assign k v m) ≡ (if same_key k j then some v else find j m)
  unfolding find assign
  find-assign k j v [] = refl
  find-assign k j v ((i, w) ∷ m) =
      ground (arith, o.same_iff k j, o.same_iff i k, o.same_iff i j, find-assign k j v m)

  pub find-erase :
      (k j : K) (m : List (K × V)) → find j (erase k m) ≡ (if same_key k j then none else find j m)
  unfolding find erase
  find-erase k j [] = ground arith
  find-erase k j ((i, w) ∷ m) =
      ground (arith, o.same_iff k j, o.same_iff i k, o.same_iff i j, find-erase k j m)

  pub find-assign_self : (k : K) (v : V) (m : List (K × V)) → find k (assign k v m) ≡ some v
  find-assign_self k v m = rw (find-assign k k v m, same_key_refl k)
