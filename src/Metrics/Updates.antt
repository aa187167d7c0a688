-- ===== src/Metrics/Updates.antt =====
-- What an update of a metric does, to that metric and to the others.
use dann.Prelude.{ℕ, ◌≡◌, refl, some, List, [], if◌then◌else◌, Bool-cases, Option-cases, inl, inr}
use dann.Dict.{Text, find, text_key, same_key, find-assign}
use dann.Metrics.{
  Double, DoubleOps, MetricType, counter, gauge, same_type, MetricData, fresh, Metrics, change,
  entry_for, update_metric, increment_counter, set_counter, set_gauge,
}
use dann.Metrics.Reading.{value_of, get_counter, get_gauge}

module _ (ops : DoubleOps) (now : ℕ) (elapsed : Double) where
  -- An update touches one name.
  pub find-update_metric :
      (name other : Text) (t : MetricType) (value : Double) (labels : List (Text × Text))
      (s : Metrics)
      → find other (update_metric ops now elapsed name t value labels s).0.metrics ≡ (
          if same_key name other
          then some (
              change ops t s.max_histogram_samples value
                (record (entry_for ops t (find name s.metrics)) {
                  labels = labels;
                  last_updated = now;
                }))
          else find other s.metrics)
  unfolding update_metric
  find-update_metric name other t value labels s =
      find-assign name other
        (change ops t s.max_histogram_samples value
          (record (entry_for ops t (find name s.metrics)) { labels = labels; last_updated = now }))
        s.metrics

  -- After an increment the counter of that name is what it was plus the value, where a missing
  -- counter and a metric of another type count as 0.0; all other counters are what they were.
  get_counter-increment_counter :
      (name other : Text) (value : Double) (s : Metrics)
      → get_counter other (increment_counter ops now elapsed name value s).0
        ≡ (if same_key name other then ops.plus (get_counter name s) value else get_counter other s)
  unfolding get_counter increment_counter value_of change entry_for fresh
  get_counter-increment_counter name other value s =
      rw (find-update_metric name other counter value [] s)
        (elim (Bool-cases (same_key name other)) [
          | inl e ↦ rw e (elim (Option-cases (find name s.metrics)) [
            | inl missing ↦ rw (missing, entry_for, value_of, fresh)
            | inr (d, present) ↦ rw (present, entry_for, value_of) (held d)
          ])
          | inr e ↦ rw (e, value_of)
        ])
    where
      held :
          (d : MetricData)
          → (if same_type (entry_for ops counter (some d)).kind counter
              then ops.plus (entry_for ops counter (some d)).value value
              else 0)
            ≡ ops.plus (if same_type d.kind counter then d.value else 0) value
      held d = elim (Bool-cases (same_type d.kind counter)) [ inl e ↦ rw (e, e) | inr e ↦ rw e ]

  -- set_counter does what increment_counter does: it adds to the counter.
  pub set_counter-increment_counter :
      (name : Text) (value : Double) (s : Metrics)
      → set_counter ops now elapsed name value s ≡ increment_counter ops now elapsed name value s
  unfolding set_counter increment_counter
  set_counter-increment_counter name value s = refl

  -- A gauge has the value that it was last set to, whatever metric had the name before; all other
  -- gauges are what they were.
  pub get_gauge-set_gauge :
      (name other : Text) (value : Double) (s : Metrics)
      → get_gauge other (set_gauge ops now elapsed name value s).0
        ≡ (if same_key name other then value else get_gauge other s)
  unfolding get_gauge set_gauge value_of change entry_for fresh
  get_gauge-set_gauge name other value s =
      rw (find-update_metric name other gauge value [] s) (elim (Bool-cases (same_key name other)) [
        | inl e ↦ rw e (elim (Option-cases (find name s.metrics)) [
          | inl missing ↦ rw (missing, entry_for, value_of, fresh)
          | inr (d, present) ↦ rw (present, entry_for, value_of) (held d)
        ])
        | inr e ↦ rw (e, value_of)
      ])
    where
      held :
          (d : MetricData)
          → (if same_type (entry_for ops gauge (some d)).kind gauge then value else 0) ≡ value
      held d = elim (Bool-cases (same_type d.kind gauge)) [ inl e ↦ rw (e, e) | inr e ↦ rw e ]
