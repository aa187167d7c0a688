-- ===== src/QueryRouter/Turns.antt =====
-- The turn of the nodes in round_robin_strategy of src/core/query_router.cpp.
use native.Mathlib.Nat.{mod-lt, mod-eq_of_lt, suc-mod, add-mod-mod, mod_self, suc-add, zero-add}
use dann.Prelude.{
  ℕ, zero, suc, ◌+◌, ◌-◌, ◌%◌, ◌≤◌, ◌<◌, ◌≡◌, refl, ap, ◌∙◌, sym, List, [], ◌∷◌, ◌++◌, length,
  get_or, take, drop, length-drop, size_mod, arith,
}
use dann.Dict.{Text}
use dann.QueryRouter.{QueryRouter, round_robin_strategy, select_node}

-- The nodes that are selected one after the other.
unfoldable pub selected : ℕ → List Text → QueryRouter → List Text
unfolding select_node
selected zero candidates s = []
selected (suc n) candidates s = let r = select_node candidates s in r.1 ∷ selected n candidates r.0

-- n elements from place i on, going round.
abbrev going_round : ℕ → ℕ → List Text → List Text
going_round zero i l = []
going_round (suc n) i l = get_or l (i % length l) [] ∷ going_round n (suc i) l

select_node-turn :
    (candidates : List Text) (s : QueryRouter)
    → 0 < length candidates
    → select_node candidates s ≡ (
      record s { counter = (s.counter + 1) % size_mod },
      get_or candidates (s.counter % length candidates) [],
    )
unfolding select_node round_robin_strategy
select_node-turn [] s h = absurd (omega arith)
select_node-turn (x ∷ candidates) s h = ground arith

selected-going_round :
    (n : ℕ) (candidates : List Text) (s : QueryRouter)
    → 0 < length candidates
    → s.counter + n ≤ size_mod
    → selected n candidates s ≡ going_round n s.counter candidates
unfolding selected
selected-going_round zero candidates s h k = refl
selected-going_round (suc zero) candidates s h k =
    ap (λ r. r.1 ∷ []) (select_node-turn candidates s h)
selected-going_round (suc (suc n)) candidates s h k =
    let e = select_node-turn candidates s h in
    let next : (s.counter + 1) % size_mod ≡ suc s.counter = omega arith in
    rw (e, ← next)
      (ap (◌∷◌ (get_or candidates (s.counter % length candidates) [])) (
        selected-going_round (suc n) candidates (record s { counter = (s.counter + 1) % size_mod })
          h (rw next (omega arith))))

get_or-drop :
    (l : List Text) (r n : ℕ)
    → r < length l
    → take (suc n) (drop r l) ≡ get_or l r [] ∷ take n (drop (suc r) l)
get_or-drop [] r n h = absurd (omega arith)
get_or-drop (x ∷ l) zero n h = refl
get_or-drop (x ∷ l) (suc r) n h = get_or-drop l r n (omega arith)

-- As long as the end is not passed.
going_round-take :
    (n i r : ℕ) (l : List Text)
    → i % length l ≡ r
    → r + n ≤ length l
    → going_round n i l ≡ take n (drop r l)
going_round-take zero i r l e h = refl
going_round-take (suc zero) i r l e h = rw e (sym (get_or-drop l r 0 (omega arith)))
going_round-take (suc (suc n)) i r l e h =
    let next : suc i % length l ≡ suc r =
      suc-mod i (length l) ∙ rw e (mod-eq_of_lt (omega arith)) in
    rw e (ap (◌∷◌ (get_or l r [])) (going_round-take (suc n) (suc i) (suc r) l next (omega arith)))
    ∙ sym (get_or-drop l r (suc n) (omega arith))

going_round-append :
    (m n i : ℕ) (l : List Text)
    → going_round (m + n) i l ≡ going_round m i l ++ going_round n (m + i) l
going_round-append zero n i l = rw (zero-add n, zero-add i)
going_round-append (suc m) n i l =
    let shift : suc m + i ≡ m + suc i = omega arith in
    rw (suc-add m n, shift)
      (ap (◌∷◌ (get_or l (i % length l) [])) (going_round-append m n (suc i) l))

take_all : (l : List Text) (n : ℕ) → length l ≤ n → take n l ≡ l
take_all [] zero h = refl
take_all [] (suc n) h = refl
take_all (x ∷ l) zero h = absurd (omega arith)
take_all (x ∷ l) (suc n) h = ap (◌∷◌ x) (take_all l n (omega arith))

going_round_once :
    (i : ℕ) (l : List Text)
    → 0 < length l
    → going_round (length l) i l ≡ drop (i % length l) l ++ take (i % length l) l
going_round_once i l h =
    let r = i % length l in
    let bound : r < length l = mod-lt i h in
    let whole : (length l - r) + r ≡ length l = omega arith in
    let start : ((length l - r) + i) % length l ≡ 0 =
      sym (add-mod-mod (length l - r) i (length l))
      ∙ (ap (λ n. n % length l) whole ∙ mod_self (length l)) in
    ap (λ n. going_round n i l) (sym whole)
    ∙ (going_round-append (length l - r) r i l
        ∙ rw (
          going_round-take (length l - r) i r l refl (omega arith),
          going_round-take r ((length l - r) + i) 0 l start (omega arith),
          take_all (drop r l) (length l - r) (rw (length-drop r l) (omega arith)),
        ))

-- As many selections as there are candidates take each of them once: in the order of the candidates,
-- from the place that the counter shows on, and then from the first on, if the 64-bit counter does not
-- wrap round on the way.
pub selected_once :
    (candidates : List Text) (s : QueryRouter)
    → 0 < length candidates
    → s.counter + length candidates ≤ size_mod
    → let i = s.counter % length candidates in
      selected (length candidates) candidates s ≡ drop i candidates ++ take i candidates
selected_once candidates s h k =
    selected-going_round (length candidates) candidates s h k
    ∙ going_round_once s.counter candidates h
