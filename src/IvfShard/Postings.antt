-- ===== src/IvfShard/Postings.antt =====
-- What the inverted lists of a shard hold after postings are added.
use dann.Prelude.{
  ℕ, ◌*◌, ◌≡◌, refl, ◌∙◌, List, [], ◌∷◌, ◌++◌, length, length-append, ◌==◌, if◌then◌else◌, arith,
  All, Bool-cases, inl, inr, ==_iff,
}
use dann.Dict.{find, assign, number_key, find-assign}
use dann.Types.{InvertedList}
use dann.IvfShard.{IndexIvfShard, posting_or_empty, extend_posting, add_posting, add_postings}

-- The inverted list of a centroid, empty where the shard has none.
unfoldable pub posting_at : IndexIvfShard → ℕ → InvertedList
unfolding posting_or_empty
posting_at s c = posting_or_empty (find c s.postings)

-- Adding a posting appends it to the list of its centroid and leaves all other lists alone.
pub posting_at-add_posting :
    (s : IndexIvfShard) (c j : ℕ) (p : InvertedList)
    → posting_at (add_posting c p s) j ≡ (
        if c == j
        then record {
          vector_ids = (posting_at s c).vector_ids ++ p.vector_ids;
          vectors = (posting_at s c).vectors ++ p.vectors;
        }
        else posting_at s j)
unfolding posting_at add_posting
posting_at-add_posting s c j p =
    rw (find-assign c j (extend_posting (posting_or_empty (find c s.postings)) p) s.postings)
      (elim (Bool-cases (c == j)) [ inl e ↦ rw e | inr e ↦ rw e ])

-- The entries for one centroid, appended in the order of iteration.
unfoldable pub extend_all : ℕ → List (ℕ × InvertedList) → InvertedList → InvertedList
unfolding extend_posting
extend_all j [] old = old
extend_all j ((c, p) ∷ l) old = extend_all j l (if c == j then extend_posting old p else old)

-- After add_postings each list is the old one followed by the entries for its centroid.
posting_at-add_postings :
    (l : List (ℕ × InvertedList)) (s : IndexIvfShard) (j : ℕ)
    → posting_at (add_postings l s) j ≡ extend_all j l (posting_at s j)
unfolding add_postings extend_all
posting_at-add_postings [] s j = refl
posting_at-add_postings ((c, p) ∷ l) s j =
    posting_at-add_postings l (add_posting c p s) j
    ∙ rw (posting_at-add_posting s c j p) (elim (Bool-cases (c == j)) [
      | inl e ↦ let same : c ≡ j = (==_iff c j).0 e in rw same
      | inr e ↦ rw e
    ])

-- A list holds d floats for each of its ids.
abbrev pub Fits : ℕ → InvertedList → Type 0
Fits d p = length p.vectors ≡ d * length p.vector_ids

abbrev pub IsValidShard : IndexIvfShard → Type 0
IsValidShard s = All (λ (e : ℕ × InvertedList). Fits s.dimension e.1) s.postings

Fits-extend_posting :
    (d : ℕ) (old p : InvertedList) → Fits d old → Fits d p → Fits d (extend_posting old p)
unfolding extend_posting
Fits-extend_posting d old p h k =
    rw (length-append old.vectors p.vectors, length-append old.vector_ids p.vector_ids)
      (omega (arith, h, k))

Fits-find :
    (d c : ℕ) (l : List (ℕ × InvertedList))
    → All (λ (e : ℕ × InvertedList). Fits d e.1) l
    → Fits d (posting_or_empty (find c l))
unfolding find posting_or_empty
Fits-find d c [] h = omega arith
Fits-find d c ((j, p) ∷ l) h = elim (Bool-cases (j == c)) [
  | inl e ↦ rw e h.0
  | inr e ↦ rw e (Fits-find d c l h.1)
]

All-assign :
    (d c : ℕ) (p : InvertedList) (l : List (ℕ × InvertedList))
    → Fits d p
    → All (λ (e : ℕ × InvertedList). Fits d e.1) l
    → All (λ (e : ℕ × InvertedList). Fits d e.1) (assign c p l)
unfolding assign
All-assign d c p [] k h = (k, tt)
All-assign d c p ((j, q) ∷ l) k h = elim (Bool-cases (j == c)) [
  | inl e ↦ rw e (k, h.1)
  | inr e ↦ rw e (h.0, All-assign d c p l k h.1)
]

-- Adding a posting that fits keeps all lists of the shard fitting.
add_posting-IsValidShard :
    (s : IndexIvfShard) (c : ℕ) (p : InvertedList)
    → IsValidShard s
    → Fits s.dimension p
    → IsValidShard (add_posting c p s)
unfolding add_posting
add_posting-IsValidShard s c p v k =
    All-assign s.dimension c _ s.postings
      (Fits-extend_posting s.dimension _ p (Fits-find s.dimension c s.postings v) k) v
