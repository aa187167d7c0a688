-- ===== src/Clustering/Train/Start.antt =====
-- Whether the training has enough vectors to start from.
use dann.Prelude.{
  ℕ, zero, suc, ◌+◌, ◌*◌, ◌/◌, ◌==◌, true, false, ◌≤◌, ◌<◌, ◌≡◌, refl, ap, ◌∙◌, none, some, List,
  [], ◌∷◌, Perm, get_elem?, length, arith, take, drop, dec_le,
}
use dann.Ranking.Perm.{length-perm}
use dann.Types.{Float}
use dann.Clustering.Train.{
  ClusteringParameters, Kernels, iota, resize, write_row, start_from, redo_pass, redo_from, train,
}

length-iota : (n i : ℕ) → length (iota n i) ≡ n
unfolding iota
length-iota zero i = refl
length-iota (suc n) i = ap suc (length-iota n (suc i))

get_elem?-some : (xs : List ℕ) (i : ℕ) → i < length xs → (x : ℕ) × (get_elem? xs i ≡ some x)
get_elem?-some [] i h = absurd (omega arith)
get_elem?-some (x ∷ xs) zero h = (x, refl)
get_elem?-some (x ∷ xs) (suc i) h = get_elem?-some xs i (omega arith)

get_elem?-none : (xs : List ℕ) (i : ℕ) → length xs ≤ i → get_elem? xs i ≡ none
get_elem?-none [] i h = refl
get_elem?-none (x ∷ xs) zero h = absurd (omega arith)
get_elem?-none (x ∷ xs) (suc i) h = get_elem?-none xs i (omega arith)

start_from-none :
    (vectors : List Float) (indices : List ℕ) (d n i : ℕ) (c : List Float)
    → i ≤ length indices
    → length indices < i + n
    → start_from vectors indices d n i c ≡ none
unfolding start_from
start_from-none vectors indices d zero i c h less = absurd (omega arith)
start_from-none vectors indices d (suc n) i c h less = elim (dec_le (length indices) i) [
  | yes out ↦ rw (get_elem?-none indices i out, start_from)
  | no inside ↦
      let (x, e) = get_elem?-some indices i (omega arith) in
      rw (e, start_from)
        (start_from-none vectors indices d n (suc i)
          (write_row d i (take d (drop (x * d) vectors)) c) (omega arith) (omega arith))
]

module _ (lib : Kernels) (d k : ℕ)
    (shuffles : (seed : ℕ) (l : List ℕ) → Perm (lib.shuffle seed l) l) where
  length-shuffle : (seed : ℕ) (l : List ℕ) → length (lib.shuffle seed l) ≡ length l
  length-shuffle seed l = length-perm (lib.shuffle seed l) l (shuffles seed l)

  -- The assertion holds.
  train-passes :
      (params : ClusteringParameters) (vectors : List Float) (n : ℕ) (c : List Float)
      → 0 < d
      → length vectors / d ≡ n
      → train lib d k params vectors n c
        ≡ redo_from lib d k params vectors n params.nredo (iota n 0) c
  unfolding train
  train-passes params vectors n c positive size =
      let some_row : (d == 0) ≡ false = ground arith in
      let same : (n == n) ≡ true = ground arith in rw (some_row, size, same)

  -- With fewer than k vectors the first pass reads past the end of the shuffled indices.
  pub train-few_vectors :
      (params : ClusteringParameters) (vectors : List Float) (n redos : ℕ) (c : List Float)
      → 0 < d
      → length vectors / d ≡ n
      → n < k
      → params.nredo ≡ suc redos
      → train lib d k params vectors n c ≡ none
  unfolding redo_from redo_pass
  train-few_vectors params vectors n redos c positive size few some_pass =
      train-passes params vectors n c positive size
      ∙ rw (
        some_pass,
        redo_from,
        redo_pass,
        start_from-none vectors (lib.shuffle params.seed (iota n 0)) d k 0 (resize (d * k) c)
            (omega arith) (omega (arith, length-shuffle params.seed (iota n 0), length-iota n 0)),
      )
