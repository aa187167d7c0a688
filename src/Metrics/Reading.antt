-- ===== src/Metrics/Reading.antt =====
-- The getters of src/utils/metrics.cpp and its management of names, alerts and bounds.
use dann.Prelude.{
  ℕ, ◌-◌, Option, none, some, List, [], ◌∷◌, map, length, get_or, leb, ◌==◌, if◌then◌else◌,
}
use dann.Dict.{Text, find, assign, erase, text_key}
use dann.Ranking.{sort}
use dann.Metrics.{
  Double, DoubleOps, MetricType, counter, gauge, histogram, same_type, MetricData, no_stats,
  Metrics,
}

-- The three getters that look at one type only.
unfoldable pub value_of : MetricType → Option MetricData → Double
value_of t none = 0
value_of t (some d) = if same_type d.kind t then d.value else 0

unfoldable pub get_counter : Text → Metrics → Double
unfolding value_of
get_counter name s = value_of counter (find name s.metrics)

unfoldable pub get_gauge : Text → Metrics → Double
unfolding value_of
get_gauge name s = value_of gauge (find name s.metrics)

unfoldable pub samples_of : Option MetricData → List Double
samples_of none = []
samples_of (some d) = if same_type d.kind histogram then d.histogram_values else []

unfoldable pub get_histogram_values : Text → Metrics → List Double
unfolding samples_of
get_histogram_values name s = samples_of (find name s.metrics)

unfoldable pub get_histogram_count : Text → Metrics → ℕ
unfolding samples_of
get_histogram_count name s = length (samples_of (find name s.metrics))

-- the sum from the left, beginning with 0.0
unfoldable pub sum_from : (Double → Double → Double) → List Double → Double → Double
sum_from plus [] total = total
sum_from plus (v ∷ values) total = sum_from plus values (plus total v)

module _ (ops : DoubleOps) where
  unfoldable pub get_histogram_sum : Text → Metrics → Double
  unfolding sum_from get_histogram_values
  get_histogram_sum name s = sum_from ops.plus (get_histogram_values name s) 0

  unfoldable pub get_histogram_mean : Text → Metrics → Double
  unfolding sum_from get_histogram_values
  get_histogram_mean name s =
      let values = get_histogram_values name s in
      if length values == 0
      then 0
      else ops.divide (sum_from ops.plus values 0) (ops.of_count (length values))

  unfoldable pub percentile_index : Double → ℕ → ℕ
  percentile_index percentile n =
      let i = ops.percent_index percentile n in if leb n i then n - 1 else i

  unfoldable pub get_histogram_percentile : Text → Double → Metrics → Double
  unfolding get_histogram_values percentile_index
  get_histogram_percentile name percentile s =
      let values = get_histogram_values name s in
      if length values == 0
      then 0
      else get_or (sort ops.order values) (percentile_index percentile (length values)) 0

unfoldable pub remove_metric : Text → Metrics → Metrics
remove_metric name s = record s { metrics = erase name s.metrics }

unfoldable pub clear_all_metrics : Metrics → Metrics
clear_all_metrics s = record s { metrics = [] }

unfoldable pub get_metric_names : Metrics → List Text
get_metric_names s = map (λ e. e.0) s.metrics

unfoldable pub set_max_histogram_samples : ℕ → Metrics → Metrics
set_max_histogram_samples max_samples s = record s { max_histogram_samples = max_samples }

unfoldable pub set_alert_threshold : Text → Double → ℕ → Metrics → Metrics
set_alert_threshold name threshold callback s = record s {
  alert_thresholds = assign name (threshold, callback) s.alert_thresholds;
}

unfoldable pub remove_alert_threshold : Text → Metrics → Metrics
remove_alert_threshold name s = record s { alert_thresholds = erase name s.alert_thresholds }

unfoldable pub reset_stats : Metrics → Metrics
reset_stats s = record s { stats = no_stats }
