-- ===== src/Metrics/Snapshots.antt =====
-- The snapshots of src/utils/metrics.cpp, its updates with labels and its timer.
use dann.Prelude.{
  ℕ, ◌≡◌, ◌∙◌, refl, ap, Bool, true, false, Option, none, some, List, [], ◌∷◌, ◌++◌, map, length,
  ◌==◌, if◌then◌else◌, Bool-cases, inl, inr,
}
use dann.Dict.{Text, same_text, find, assign, text_key, find-assign, same_text→eq}
use dann.Config.{text}
use dann.Metrics.{
  Double, DoubleOps, MetricType, counter, gauge, histogram, MetricData, fresh, Metrics, Alert,
  increment_counter, set_gauge, record_histogram,
}
use dann.Metrics.Labels.{format_labels}
use dann.Metrics.Reading.{sum_from}

pub record MetricSnapshot : Type 0 where
  pub name : Text
  pub type_name : Text
  pub values : List (Text × Double)
  pub labels : List (Text × Text)
  pub timestamp_ms : ℕ

unfoldable pub type_to_name : MetricType → Text
type_to_name counter = text "counter"
type_to_name gauge = text "gauge"
type_to_name histogram = text "histogram"

unfoldable pub name_to_type : Text → Option MetricType
name_to_type t =
    if same_text t (text "counter")
    then some counter
    else if same_text t (text "gauge")
    then some gauge
    else if same_text t (text "histogram")
    then some histogram
    else none

module _ (ops : DoubleOps) where
  -- Of a histogram only the count, the sum and the mean are kept.
  unfoldable pub values_of : MetricType → MetricData → List (Text × Double)
  unfolding sum_from
  values_of counter d = (text "value", d.value) ∷ []
  values_of gauge d = (text "value", d.value) ∷ []
  values_of histogram d =
      let count = length d.histogram_values in
      let sum = sum_from ops.plus d.histogram_values 0 in
      (text "count", ops.of_count count)
      ∷ (if count == 0
          then []
          else (text "sum", sum) ∷ (text "mean", ops.divide sum (ops.of_count count)) ∷ [])

  unfoldable pub snapshot_of : Text × MetricData → MetricSnapshot
  unfolding type_to_name values_of
  snapshot_of (name, d) = record {
    name = name;
    type_name = type_to_name d.kind;
    values = values_of d.kind d;
    labels = d.labels;
    timestamp_ms = d.last_updated;
  }

  unfoldable pub get_snapshot : Metrics → List MetricSnapshot
  unfolding snapshot_of
  get_snapshot s = map snapshot_of s.metrics

abbrev or_zero : Option Double → Double
or_zero none = 0
or_zero (some v) = v

unfoldable pub restored : MetricSnapshot → MetricType → MetricData
unfolding fresh
restored snap kind = record (fresh kind) {
  labels = snap.labels;
  timestamp_ms = snap.timestamp_ms;
  value = or_zero (find (text "value") snap.values);
}

-- A snapshot of an unknown type is passed over.
abbrev restore_as :
    MetricSnapshot → Option MetricType → List (Text × MetricData) → List (Text × MetricData)
restore_as snap none metrics = metrics
restore_as snap (some kind) metrics = assign snap.name (restored snap kind) metrics

unfoldable pub restore_all :
    List MetricSnapshot → List (Text × MetricData) → List (Text × MetricData)
unfolding name_to_type restored
restore_all [] metrics = metrics
restore_all (snap ∷ snapshot) metrics =
    restore_all snapshot (restore_as snap (name_to_type snap.type_name) metrics)

unfoldable pub restore_snapshot : List MetricSnapshot → Metrics → Metrics
unfolding restore_all
restore_snapshot snapshot s = record s { metrics = restore_all snapshot s.metrics }

-- The updates of a metric with labels work under the name with the labels behind it.
module _ (ops : DoubleOps) where
  unfoldable pub increment_counter_with_labels :
      ℕ → Double → Text → List (Text × Text) → Double → Metrics → Metrics × List Alert
  unfolding increment_counter format_labels
  increment_counter_with_labels now elapsed name labels value s =
      increment_counter ops now elapsed (name ++ format_labels labels) value s

  unfoldable pub set_gauge_with_labels :
      ℕ → Double → Text → List (Text × Text) → Double → Metrics → Metrics × List Alert
  unfolding set_gauge format_labels
  set_gauge_with_labels now elapsed name labels value s =
      set_gauge ops now elapsed (name ++ format_labels labels) value s

unfoldable pub record_histogram_with_labels : Text → List (Text × Text) → Double → Metrics → Metrics
unfolding record_histogram format_labels
record_histogram_with_labels name labels value s =
    record_histogram (name ++ format_labels labels) value s

pub record Timer : Type 0 where
  pub name : Text
  pub stopped : Bool

unfoldable pub start_timer : Text → Timer
start_timer name = record { name = name; stopped = false }

-- The destructor stops a timer too; a second stop does nothing.
unfoldable pub stop : Double → Timer → Metrics → Timer × Metrics
unfolding record_histogram
stop duration timer s = if timer.stopped then (timer, s) else (
  record timer { stopped = true },
  record_histogram (timer.name ++ text "_duration_ms") duration s,
)

-- What a metric is after a snapshot and its restoration: the value of a counter or gauge and the labels
-- are kept, the samples of a histogram are not, and the time of the last update becomes the timestamp.
abbrev pub value_kept : MetricType → Double → Double
value_kept counter v = v
value_kept gauge v = v
value_kept histogram v = 0

abbrev pub survivor : MetricData → MetricData
survivor d = record {
  kind = d.kind;
  value = value_kept d.kind d.value;
  histogram_values = [];
  labels = d.labels;
  last_updated = 0;
  timestamp_ms = d.last_updated;
}

-- No name stands twice.
abbrev pub IsMap : List (Text × MetricData) → Type 0
IsMap [] = Unit
IsMap ((name, d) ∷ metrics) = (find name metrics ≡ none) × IsMap metrics

abbrev pub overlaid : Option MetricData → Option MetricData → Option MetricData
overlaid none old = old
overlaid (some d) old = some (survivor d)

module _ (ops : DoubleOps) where
  restore_as-snapshot_of :
      (name : Text) (d : MetricData) (metrics : List (Text × MetricData))
      → restore_as (snapshot_of ops (name, d)) (name_to_type (type_to_name d.kind)) metrics
        ≡ assign name (survivor d) metrics
  unfolding snapshot_of name_to_type type_to_name values_of restored fresh find
  restore_as-snapshot_of name d metrics = go d.kind
    where
      go :
          (t : MetricType)
          → restore_as
              (snapshot_of ops (name, record d { kind = t }))
              (name_to_type (type_to_name t))
              metrics
            ≡ assign name (survivor (record d { kind = t })) metrics
      go counter = refl
      go gauge = refl
      go histogram = elim (Bool-cases (length d.histogram_values == 0)) [
        | inl y ↦ rw y refl
        | inr z ↦ rw z refl
      ]

  find-restore_all :
      (taken metrics : List (Text × MetricData)) (name : Text)
      → IsMap taken
      → find name (restore_all (map (snapshot_of ops) taken) metrics)
        ≡ overlaid (find name taken) (find name metrics)
  unfolding restore_all find type_to_name snapshot_of
  find-restore_all [] metrics name h = refl
  find-restore_all ((n, d) ∷ taken) metrics name h =
      ap (λ m. find name (restore_all (map (snapshot_of ops) taken) m))
        (restore_as-snapshot_of n d metrics)
      ∙ find-restore_all taken (assign n (survivor d) metrics) name h.1
      ∙ rw (find-assign n name (survivor d) metrics) (elim (Bool-cases (same_text n name)) [
        | inl y ↦
            let q : n ≡ name = same_text→eq n name y in
            let free : find name taken ≡ none = rw q at h.0 in rw (y, free) refl
        | inr z ↦ rw z refl
      ])

  -- If no name stands twice in s, a snapshot of s that is restored into t gives each metric of s as
  -- `survivor` says, and leaves the other metrics of t as they were.
  pub restore_snapshot-get_snapshot :
      (s t : Metrics) (name : Text)
      → IsMap s.metrics
      → find name (restore_snapshot (get_snapshot ops s) t).metrics
        ≡ overlaid (find name s.metrics) (find name t.metrics)
  unfolding restore_snapshot get_snapshot
  restore_snapshot-get_snapshot s t name h = find-restore_all s.metrics t.metrics name h
