-- ===== src/Metrics.antt =====
-- src/utils/metrics.cpp: counters, gauges and histograms by name, their alerts and statistics. The
-- clocks are parameters: `now` in milliseconds, and `elapsed`, the time that an update has taken.
pub mod Reading
pub mod Updates
pub mod Samples
pub mod Labels
pub mod Snapshots
pub mod Exports
use dann.Prelude.{
  ℕ, zero, suc, ◌+◌, ◌-◌, ◌*◌, Bool, true, false, Option, none, some, List, [], ◌∷◌, ◌++◌, drop,
  map, length, get_or, ltb, leb, ◌==◌, if◌then◌else◌,
}
use dann.Dict.{Text, find, assign, erase, text_key}
use dann.Ranking.{sort}

-- A double is its bit pattern; 0 is the pattern of 0.0.
abbrev pub Double : Type 0
Double = ℕ

-- The processor's arithmetic on doubles, of which nothing is assumed. `order` gives the place of a
-- double among all doubles.
pub record DoubleOps : Type 0 where
  pub plus : Double → Double → Double
  pub negate : Double → Double
  pub times : Double → Double → Double
  pub divide : Double → Double → Double
  pub of_count : ℕ → Double
  pub order : Double → ℕ
  -- static_cast<size_t>(percentile / 100.0 * n)
  pub percent_index : Double → ℕ → ℕ
  -- sizeof(MetricData)
  pub data_size : ℕ

pub data MetricType : Type 0 where
  counter gauge histogram : MetricType

abbrev pub same_type : MetricType → MetricType → Bool
same_type counter counter = true
same_type gauge gauge = true
same_type histogram histogram = true
same_type counter gauge = false
same_type counter histogram = false
same_type gauge counter = false
same_type gauge histogram = false
same_type histogram counter = false
same_type histogram gauge = false

pub record MetricData : Type 0 where
  pub kind : MetricType
  pub value : Double
  pub histogram_values : List Double
  pub labels : List (Text × Text)
  pub last_updated : ℕ
  pub timestamp_ms : ℕ

unfoldable pub fresh : MetricType → MetricData
fresh t = record {
  kind = t;
  value = 0;
  histogram_values = [];
  labels = [];
  last_updated = 0;
  timestamp_ms = 0;
}

pub record MetricsStats : Type 0 where
  pub total_metrics : ℕ
  pub total_samples : ℕ
  pub memory_usage_bytes : ℕ
  pub avg_update_time_us : Double

abbrev pub no_stats : MetricsStats
no_stats = record {
  total_metrics = 0;
  total_samples = 0;
  memory_usage_bytes = 0;
  avg_update_time_us = 0;
}

-- A callback is a number.
pub record Metrics : Type 0 where
  pub metrics : List (Text × MetricData)
  pub default_labels : List (Text × Text)
  pub histogram_buckets : List Double
  pub max_histogram_samples : ℕ
  pub alert_thresholds : List (Text × (Double × ℕ))
  pub stats : MetricsStats

-- A callback that is started in a thread of its own.
pub record Alert : Type 0 where
  pub callback : ℕ
  pub name : Text
  pub value : Double
  pub threshold : Double

-- 0.1, 0.5, 1, 2.5, 5, 10, 25, 50, 100, 250, 500, 1000, 2500, 5000 and 10000
abbrev default_buckets : List Double
default_buckets =
    0x3fb999999999999a ∷ 0x3fe0000000000000 ∷ 0x3ff0000000000000 ∷ 0x4004000000000000
    ∷ 0x4014000000000000 ∷ 0x4024000000000000 ∷ 0x4039000000000000 ∷ 0x4049000000000000
    ∷ 0x4059000000000000 ∷ 0x406f400000000000 ∷ 0x407f400000000000 ∷ 0x408f400000000000
    ∷ 0x40a3880000000000 ∷ 0x40b3880000000000 ∷ 0x40c3880000000000 ∷ []

unfoldable pub start : Metrics
start = record {
  metrics = [];
  default_labels = [];
  histogram_buckets = default_buckets;
  max_histogram_samples = 10000;
  alert_thresholds = [];
  stats = no_stats;
}

-- Beyond the maximum the oldest samples go.
unfoldable pub bounded : ℕ → List Double → List Double
bounded max_samples values =
    if ltb max_samples (length values) then drop (length values - max_samples) values else values

unfoldable pub add_histogram_sample : ℕ → Double → MetricData → MetricData
unfolding bounded
add_histogram_sample max_samples value d = record d {
  histogram_values = bounded max_samples (d.histogram_values ++ value ∷ []);
}

unfoldable pub label_bytes : List (Text × Text) → ℕ
label_bytes [] = 0
label_bytes ((k, v) ∷ labels) = length k + length v + label_bytes labels

module _ (ops : DoubleOps) where
  unfoldable pub estimate_memory_usage : List (Text × MetricData) → ℕ
  unfolding label_bytes
  estimate_memory_usage [] = 0
  estimate_memory_usage ((name, d) ∷ metrics) =
      ops.data_size
      + length d.histogram_values * 8
      + label_bytes d.labels
      + estimate_memory_usage metrics

  unfoldable pub update_stats : Double → List (Text × MetricData) → MetricsStats → MetricsStats
  unfolding estimate_memory_usage
  update_stats elapsed metrics stats = record {
    total_metrics = length metrics;
    total_samples = stats.total_samples + 1;
    memory_usage_bytes = estimate_memory_usage metrics;
    avg_update_time_us =
        ops.divide
          (ops.plus (ops.times stats.avg_update_time_us (ops.of_count stats.total_samples)) elapsed)
          (ops.of_count (stats.total_samples + 1));
  }

  unfoldable pub check_alerts : Text → Double → List (Text × (Double × ℕ)) → List Alert
  check_alerts name value thresholds = elim (find name thresholds) [
    | none ↦ []
    | some (threshold, callback) ↦
        if ltb (ops.order threshold) (ops.order value)
        then record { callback = callback; name = name; value = value; threshold = threshold } ∷ []
        else []
  ]

  -- The switch on the type.
  unfoldable pub change : MetricType → ℕ → Double → MetricData → MetricData
  unfolding add_histogram_sample
  change counter max_samples value d = record d { value = ops.plus d.value value }
  change gauge max_samples value d = record d { value = value }
  change histogram max_samples value d = add_histogram_sample max_samples value d

  -- The metric that an update works on: a new one for a new name and for another type.
  unfoldable pub entry_for : MetricType → Option MetricData → MetricData
  unfolding fresh
  entry_for t none = fresh t
  entry_for t (some d) = if same_type d.kind t then d else fresh t

  unfoldable pub update_metric :
      ℕ → Double → Text → MetricType → Double → List (Text × Text) → Metrics → Metrics × List Alert
  unfolding change entry_for update_stats check_alerts
  update_metric now elapsed name t value labels s =
      let d =
        change t s.max_histogram_samples value
          (record (entry_for t (find name s.metrics)) { labels = labels; last_updated = now }) in
      let metrics = assign name d s.metrics in
      (
        record s { metrics = metrics; stats = update_stats elapsed metrics s.stats },
        check_alerts name d.value s.alert_thresholds,
      )

  unfoldable pub increment_counter : ℕ → Double → Text → Double → Metrics → Metrics × List Alert
  unfolding update_metric
  increment_counter now elapsed name value s = update_metric now elapsed name counter value [] s

  unfoldable pub decrement_counter : ℕ → Double → Text → Double → Metrics → Metrics × List Alert
  unfolding update_metric
  decrement_counter now elapsed name value s =
      update_metric now elapsed name counter (ops.negate value) [] s

  unfoldable pub set_counter : ℕ → Double → Text → Double → Metrics → Metrics × List Alert
  unfolding update_metric
  set_counter now elapsed name value s = update_metric now elapsed name counter value [] s

  unfoldable pub set_gauge : ℕ → Double → Text → Double → Metrics → Metrics × List Alert
  unfolding update_metric
  set_gauge now elapsed name value s = update_metric now elapsed name gauge value [] s

-- Neither the statistics nor the alerts take notice of it, and a metric of another type stays.
unfoldable pub record_histogram : Text → Double → Metrics → Metrics
unfolding add_histogram_sample fresh
record_histogram name value s = elim (find name s.metrics) [
  | none ↦ record s {
    metrics =
        assign name (add_histogram_sample s.max_histogram_samples value (fresh histogram))
          s.metrics;
  }
  | some d ↦
      if same_type d.kind histogram
      then record s {
        metrics = assign name (add_histogram_sample s.max_histogram_samples value d) s.metrics;
      }
      else s
]
