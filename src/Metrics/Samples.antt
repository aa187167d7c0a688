-- ===== src/Metrics/Samples.antt =====
-- The samples of a histogram and its percentiles.
use dann.Prelude.{
  ℕ, zero, suc, ◌+◌, ◌-◌, ◌≤◌, ◌≡◌, refl, ◌∙◌, true, none, some, List, [], ◌∷◌, ◌++◌, append_assoc,
  append-nil, drop, length, length-append, length-drop, ltb, arith, Bool-cases, inl, inr,
}
use dann.Dict.{Text, find, assign, text_key, find-assign_self}
use dann.Metrics.{
  Double, histogram, same_type, MetricData, fresh, Metrics, bounded, add_histogram_sample,
  record_histogram,
}
use dann.Metrics.Reading.{samples_of, get_histogram_values}

-- The last m elements.
abbrev pub latest : ℕ → List Double → List Double
latest m l = drop (length l - m) l

bounded-latest : (m : ℕ) (l : List Double) → bounded m l ≡ latest m l
unfolding bounded
bounded-latest m l = elim (Bool-cases (ltb m (length l))) [
  | inl e ↦ rw e
  | inr e ↦ let none_lost : length l - m ≡ 0 = ground arith in rw (e, none_lost)
]

drop-append_le : (i : ℕ) (l r : List Double) → i ≤ length l → drop i (l ++ r) ≡ drop i l ++ r
drop-append_le zero l r h = refl
drop-append_le (suc i) [] r h = absurd (omega arith)
drop-append_le (suc i) (x ∷ l) r h = drop-append_le i l r (omega arith)

drop-drop : (i j k : ℕ) (l : List Double) → j + i ≡ k → drop i (drop j l) ≡ drop k l
drop-drop i zero k l e = let h : k ≡ i = omega arith in rw h
drop-drop zero (suc j) zero [] e = refl
drop-drop zero (suc j) (suc k) [] e = refl
drop-drop (suc i) (suc j) zero [] e = refl
drop-drop (suc i) (suc j) (suc k) [] e = refl
drop-drop i (suc j) zero (x ∷ l) e = absurd (omega arith)
drop-drop i (suc j) (suc k) (x ∷ l) e = drop-drop i j k l (omega arith)

latest-append : (m : ℕ) (l r : List Double) → latest m (latest m l ++ r) ≡ latest m (l ++ r)
latest-append m l r = rw (← drop-append_le (length l - m) l r (omega arith)) (
    drop-drop (length (drop (length l - m) (l ++ r)) - m) (length l - m) (length (l ++ r) - m)
      (l ++ r) (omega (arith, length-drop (length l - m) (l ++ r), length-append l r)))

-- A series of samples.
unfoldable pub record_all : Text → List Double → Metrics → Metrics
record_all name [] s = s
record_all name (v ∷ values) s = record_all name values (record_histogram name v s)

-- What a name holds, if it holds a histogram or nothing yet.
HoldsHistogram : Text → List Double → Metrics → Type 0
HoldsHistogram name values s =
    (d : MetricData) × (find name s.metrics ≡ some d)
    × (same_type d.kind histogram ≡ true)
    × (d.histogram_values ≡ values)

record_histogram-present :
    (name : Text) (v : Double) (s : Metrics) (d : MetricData)
    → find name s.metrics ≡ some d
    → same_type d.kind histogram ≡ true
    → record_histogram name v s ≡ record s {
      metrics = assign name (add_histogram_sample s.max_histogram_samples v d) s.metrics;
    }
unfolding record_histogram
record_histogram-present name v s d present e = rw (present, record_histogram, e)

record_histogram-missing :
    (name : Text) (v : Double) (s : Metrics)
    → find name s.metrics ≡ none
    → record_histogram name v s ≡ record s {
      metrics =
          assign name (add_histogram_sample s.max_histogram_samples v (fresh histogram)) s.metrics;
    }
unfolding record_histogram
record_histogram-missing name v s missing = rw (missing, record_histogram)

record_all-held :
    (name : Text) (values before : List Double) (s : Metrics)
    → HoldsHistogram name (latest s.max_histogram_samples before) s
    → get_histogram_values name (record_all name values s)
      ≡ latest s.max_histogram_samples (before ++ values)
unfolding record_all HoldsHistogram get_histogram_values samples_of record_histogram
    add_histogram_sample
record_all-held name [] before s (d, present, e, held) =
    rw (present, samples_of, e, append-nil) held
record_all-held name (v ∷ values) before s (d, present, e, held) =
    rw (record_all, record_histogram-present name v s d present e)
      (record_all-held name values (before ++ v ∷ [])
          (record s {
            metrics = assign name (add_histogram_sample s.max_histogram_samples v d) s.metrics;
          })
          (
            add_histogram_sample s.max_histogram_samples v d,
            find-assign_self name (add_histogram_sample s.max_histogram_samples v d) s.metrics,
            e,
            rw held (
                bounded-latest s.max_histogram_samples
                  (latest s.max_histogram_samples before ++ v ∷ [])
                ∙ latest-append s.max_histogram_samples before (v ∷ [])),
          )
        ∙ rw append_assoc)

-- Recording a series under a new name keeps the last samples, as many as the maximum allows, in their
-- order.
pub record_all-latest :
    (name : Text) (v : Double) (values : List Double) (s : Metrics)
    → find name s.metrics ≡ none
    → get_histogram_values name (record_all name (v ∷ values) s)
      ≡ latest s.max_histogram_samples (v ∷ values)
unfolding record_all HoldsHistogram record_histogram add_histogram_sample fresh
record_all-latest name v values s missing =
    rw (record_all, record_histogram-missing name v s missing)
      (record_all-held name values (v ∷ [])
        (record s {
          metrics =
              assign name (add_histogram_sample s.max_histogram_samples v (fresh histogram))
                s.metrics;
        })
        (
          add_histogram_sample s.max_histogram_samples v (fresh histogram),
          find-assign_self name (add_histogram_sample s.max_histogram_samples v (fresh histogram))
              s.metrics,
          refl,
          bounded-latest s.max_histogram_samples (v ∷ []),
        ))
