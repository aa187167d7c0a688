-- ===== src/Logger/Rotation/Shift.antt =====
-- What the loop of rotate_files in src/utils/logger.cpp leaves under each number.
use dann.Prelude.{
  ℕ, zero, suc, ◌-◌, ◌<◌, ◌≡◌, ◌≢◌, refl, sym, ◌∙◌, true, false, Option, none, some, Option-cases,
  [], ◌∷◌, ◌++◌, length, ltb, leb, ◌||◌, ◌==◌, ==_iff, if◌then◌else◌, arith, Bool-cases, if_both,
  inl, inr,
}
use dann.Dict.{
  Text, find, assign, erase, text_key, find-assign, find-erase, same_text, same_text→eq,
  same_text_refl,
}
use dann.Logger.{Process, Files, Logger}
use dann.Logger.Rotating.{backup_name, move_backup, shift_from, touched, open_file}

module _ (process : Process) (output_file : Text)
    (to_string_injective : (i j : ℕ) → process.to_string i ≡ process.to_string j → i ≡ j) where
  append_cancel : (l a b : Text) → l ++ a ≡ l ++ b → a ≡ b
  append_cancel [] a b e = e
  append_cancel (x ∷ l) a b e = append_cancel l a b (ground (arith, e))

  abbrev pub name : ℕ → Text
  name i = backup_name process output_file i

  -- what stands under a number
  abbrev pub at : ℕ → Files → Option Text
  at i files = find (name i) files

  name_injective : (i j : ℕ) → name i ≡ name j → i ≡ j
  name_injective i j e =
      let q = append_cancel output_file (46 ∷ process.to_string i) (46 ∷ process.to_string j) e in
      to_string_injective i j (ground (arith, q))

  pub same_name : (i j : ℕ) → same_text (name i) (name j) ≡ (i == j)
  same_name i j = elim (Bool-cases (i == j)) [
    | inl y ↦ let q : i ≡ j = (==_iff i j).0 y in rw (y, q) (same_text_refl (name j))
    | inr z ↦ elim (Bool-cases (same_text (name i) (name j))) [
      | inl t ↦ absurd (differ i j z (name_injective i j (same_text→eq (name i) (name j) t)))
      | inr f ↦ rw z f
    ]
  ]
    where
      differ : (i j : ℕ) → (i == j) ≡ false → i ≢ j
      differ i j z e = ground arith

  -- One round, where the next number is free and the number is not the last.
  at-move_backup :
      (max_files i j : ℕ) (files : Files)
      → at (suc i) files ≡ none
      → i ≢ max_files - 1
      → at j (move_backup process output_file max_files i files)
        ≡ (if j == i then none else if j == suc i then at i files else at j files)
  unfolding move_backup
  at-move_backup max_files i j files free h = elim (Option-cases (at i files)) [
    | inl e ↦ rw (e, move_backup) (stays (at j files) (λ q. rw q e) (λ q. rw q free))
    | inr (c, e) ↦
        let other : (i == max_files - 1) ≡ false = ground arith in
        rw
          (
            e,
            move_backup,
            other,
            find-assign (name (suc i)) (name j) c (erase (name i) files),
            find-erase (name i) (name j) files,
            same_name (suc i) j,
            same_name i j,
          )
          (moves c (at j files))
  ]
    where
      stays :
          (o : Option Text)
          → (j ≡ i → o ≡ none)
          → (j ≡ suc i → o ≡ none)
          → o ≡ (if j == i then none else if j == suc i then none else o)
      stays o p q = elim (Bool-cases (j == i)) [
        | inl y ↦ rw y (p ((==_iff j i).0 y))
        | inr z ↦ rw z (elim (Bool-cases (j == suc i)) [
          | inl y ↦ rw y (q ((==_iff j (suc i)).0 y))
          | inr w ↦ rw w
        ])
      ]

      moves :
          (c : Text) (o : Option Text)
          → (if suc i == j then some c else if i == j then none else o)
            ≡ (if j == i then none else if j == suc i then some c else o)
      moves c o = ground arith

  -- What the rounds from number i down leave, where the number after i is free.
  abbrev shifted : ℕ → (ℕ → Option Text) → ℕ → Option Text
  shifted i old j =
      if j == 0 || ltb (suc i) j
      then old j
      else if j == 1
      then (if i == 0 then old 1 else none)
      else old (j - 1)

  same_self : (i : ℕ) → (i == i) ≡ true
  same_self i = (==_iff i i).1 refl

  shifted_zero : (old : ℕ → Option Text) (j : ℕ) → old j ≡ shifted 0 old j
  shifted_zero old j = elim (Bool-cases (j == 1)) [
    | inl y ↦ let q : j ≡ 1 = (==_iff j 1).0 y in rw q refl
    | inr z ↦ ground arith
  ]

  shifted_eq :
      (i j : ℕ) (old new : ℕ → Option Text)
      → ((k : ℕ) → old k ≡ new k)
      → shifted i old j ≡ shifted i new j
  shifted_eq i j old new h = rw (h j, h 1, h (j - 1))

  shifted-suc :
      (i j : ℕ) (old : ℕ → Option Text)
      → shifted i
          (λ k. if k == suc i then none else if k == suc (suc i) then old (suc i) else old k)
          j
        ≡ shifted (suc i) old j
  shifted-suc i j old = elim (Bool-cases (j == suc (suc i))) [
    | inl y ↦ let q : j ≡ suc (suc i) = (==_iff j (suc (suc i))).0 y in rw q (ground arith)
    | inr z ↦ ground arith
  ]

  at-shift_from :
      (max_files i j : ℕ) (files : Files)
      → at (suc i) files ≡ none
      → i < max_files - 1
      → at j (shift_from process output_file max_files i files) ≡ shifted i (λ k. at k files) j
  unfolding shift_from
  at-shift_from max_files zero j files free h = shifted_zero (λ k. at k files) j
  at-shift_from max_files (suc i) j files free h =
      let moved = move_backup process output_file max_files (suc i) files in
      let round = λ (k : ℕ). at-move_backup max_files (suc i) k files free (ground arith) in
      at-shift_from max_files i j moved (round (suc i) ∙ rw (same_self (suc i))) (omega arith)
      ∙ shifted_eq i j (λ k. at k moved) _ round
      ∙ shifted-suc i j (λ k. at k files)

  -- What a rotation leaves under number j, with c in the current file: with one file allowed c becomes
  -- number 1 and nothing else is moved; with more, number 1 and the last are left free, c becomes
  -- number 2 if that is below the maximum, and number j is what number j - 1 was.
  abbrev pub kept : ℕ → Text → (ℕ → Option Text) → ℕ → Option Text
  kept max_files c old j =
      if max_files == 1
      then (if j == 1 then some c else old j)
      else if j == 0 || leb max_files j
      then old j
      else if j == 1
      then none
      else if j == 2
      then some c
      else old (j - 1)

  -- The last number is given up.
  at-move_last :
      (max_files i j : ℕ) (files : Files)
      → i ≡ max_files - 1
      → at j (move_backup process output_file max_files i files)
        ≡ (if j == i then none else at j files)
  unfolding move_backup
  at-move_last max_files i j files h = elim (Option-cases (at i files)) [
    | inl e ↦
        rw (e, move_backup)
          (elim (Bool-cases (j == i)) [
            | inl y ↦ let q : j ≡ i = (==_iff j i).0 y in rw (y, q) e
            | inr z ↦ rw z refl
          ])
    | inr (c, e) ↦
        let last : (i == max_files - 1) ≡ true = (==_iff i (max_files - 1)).1 h in
        rw (e, move_backup, last, find-erase (name i) (name j) files, same_name i j)
          (flip (at j files))
  ]
    where
      flip : (o : Option Text) → (if i == j then none else o) ≡ (if j == i then none else o)
      flip o = ground arith

  kept_lem :
      (m j : ℕ) (c : Text) (old : ℕ → Option Text)
      → shifted m (λ k. if k == suc m then none else if 1 == k then some c else old k) j
        ≡ kept (suc (suc m)) c old j
  kept_lem m j c old = ground arith

  pub at-shift :
      (max_files j : ℕ) (c : Text) (files : Files) (old : ℕ → Option Text)
      → 0 < max_files
      → ((k : ℕ) → at k files ≡ (if 1 == k then some c else old k))
      → at j (shift_from process output_file max_files (max_files - 1) files)
        ≡ kept max_files c old j
  unfolding shift_from
  at-shift zero j c files old h e = absurd (omega arith)
  at-shift (suc zero) j c files old h e = e j ∙ flip (old j)
    where
      flip : (o : Option Text) → (if 1 == j then some c else o) ≡ (if j == 1 then some c else o)
      flip o = ground arith
  at-shift (suc (suc m)) j c files old h e =
      let last : suc (suc m) - 1 ≡ suc m = omega arith in
      let moved = move_backup process output_file (suc (suc m)) (suc m) files in
      let round = λ (k : ℕ). at-move_last (suc (suc m)) (suc m) k files (sym last) in
      rw last (
        at-shift_from (suc (suc m)) m j moved (round (suc m) ∙ rw (same_self (suc m))) (omega arith)
        ∙ shifted_eq m j (λ k. at k moved)
            (λ k. if k == suc m then none else if 1 == k then some c else old k)
            (λ k. round k ∙ rw (e k))
        ∙ kept_lem m j c old)

  append_longer : (l r : Text) (x : ℕ) → l ≡ l ++ x ∷ r → ⊥
  append_longer [] r x e = ground (arith, e)
  append_longer (y ∷ l) r x e = append_longer l r x (ground (arith, e))

  pub not_backup : (j : ℕ) → same_text output_file (name j) ≡ false
  not_backup j = elim (Bool-cases (same_text output_file (name j))) [
    | inl t ↦
        absurd
          (append_longer output_file (process.to_string j) 46 (same_text→eq output_file (name j) t))
    | inr f ↦ f
  ]

  at-touched : (j : ℕ) (files : Files) → at j (touched process output_file files) ≡ at j files
  unfolding touched
  at-touched j files = elim (Option-cases (find output_file files)) [
    | inl e ↦ rw (e, touched, find-assign output_file (name j) [] files, not_backup j) refl
    | inr (c, e) ↦ rw (e, touched) refl
  ]

  pub at-open_file :
      (j : ℕ) (s : Logger)
      → s.output_file ≡ output_file
      → at j (open_file process s).files ≡ at j s.files
  unfolding open_file
  at-open_file j s e =
      if_both (λ (t : Logger). at j t.files ≡ at j s.files) (length s.output_file == 0) s _ refl
        (if_both (λ (t : Logger). at j t.files ≡ at j s.files) (process.opens s.output_file) _ _
          (rw e (at-touched j s.files)) refl)

  pub at-renamed :
      (j : ℕ) (c : Text) (files : Files)
      → at j (assign (name 1) c (erase output_file files)) ≡ (if 1 == j then some c else at j files)
  at-renamed j c files = rw (
    find-assign (name 1) (name j) c (erase output_file files),
    find-erase output_file (name j) files,
    same_name 1 j,
    not_backup j,
  )
