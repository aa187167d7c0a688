-- ===== src/Ranking.antt =====
-- std::priority_queue and std::sort of elements with a distance, as the searches use them
-- (include/dann/types.h: both structs are compared by `distance` alone).
-- A queue is the list of its elements, the top one first. The standard leaves open which of several
-- equal elements comes first, and no law here depends on it.
pub mod Laws
pub mod Nearest
pub mod Perm
pub mod Merge
use dann.Prelude.{
  ℕ, zero, suc, ◌+◌, ◌≤◌, Bool, true, false, Option, none, some, List, [], ◌∷◌, ◌++◌, reverse, leb,
  ltb, length, if◌then◌else◌,
}

-- `while (!queue.empty()) { result.push_back(queue.top()); queue.pop(); }`, then std::reverse
unfoldable pub drain {ℓ} : {A : Type ℓ} → List A → List A → List A
drain [] result = reverse result
drain (t ∷ q) result = drain q (result ++ t ∷ [])

module _ {A : Type 0} (key : A → ℕ) where
  -- emplace
  unfoldable pub push : A → List A → List A
  push e [] = e ∷ []
  push e (a ∷ q) = if leb (key a) (key e) then e ∷ a ∷ q else a ∷ push e q

  -- One step of a bounded search: the queue holds at most `k`. `none` is the call of `top` on an
  -- empty queue, which is undefined.
  unfoldable pub offer : ℕ → A → List A → Option (List A)
  unfolding push
  offer k e [] = if ltb 0 k then some (e ∷ []) else none
  offer k e (t ∷ q) =
      if ltb (length (t ∷ q)) k
      then some (push e (t ∷ q))
      else if ltb (key e) (key t)
      then some (push e q)
      else some (t ∷ q)

  unfoldable pub offer_all : ℕ → List A → List A → Option (List A)
  offer_all k [] q = some q
  offer_all k (e ∷ es) q = elim (offer k e q) [ none ↦ none | some q' ↦ offer_all k es q' ]

  -- std::sort by ascending distance
  insert : A → List A → List A
  insert e [] = e ∷ []
  insert e (a ∷ l) = if leb (key e) (key a) then e ∷ a ∷ l else a ∷ insert e l

  unfoldable pub sort : List A → List A
  unfolding insert
  sort [] = []
  sort (a ∷ l) = insert a (sort l)
