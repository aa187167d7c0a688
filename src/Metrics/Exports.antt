-- ===== src/Metrics/Exports.antt =====
-- The exports of src/utils/metrics.cpp. How a stream writes a double and a count are parameters.
use dann.Prelude.{ℕ, ◌+◌, List, [], ◌∷◌, ◌++◌, map, length, leb, if◌then◌else◌}
use dann.Dict.{Text}
use dann.Ranking.{sort}
use dann.Config.{text}
use dann.Metrics.{Double, DoubleOps, MetricType, counter, gauge, histogram, MetricData, Metrics}
use dann.Metrics.Reading.{sum_from}
use dann.Metrics.Snapshots.{type_to_name}

abbrev line : Text → Text
line t = t ++ 10 ∷ []

abbrev quoted : Text → Text
quoted t = 34 ∷ t ++ 34 ∷ []

unfoldable pub concat : List Text → Text
concat [] = []
concat (t ∷ texts) = t ++ concat texts

module _ (ops : DoubleOps) (show : Double → Text) (show_count : ℕ → Text) where
  -- How many values are at most the bucket's bound.
  unfoldable pub count_in_bucket : Double → List Double → ℕ
  count_in_bucket bucket [] = 0
  count_in_bucket bucket (v ∷ values) =
      (if leb (ops.order v) (ops.order bucket) then 1 else 0) + count_in_bucket bucket values

  unfoldable pub bucket_line : Text → List Double → Double → Text
  unfolding count_in_bucket
  bucket_line name values bucket = line (
      name
      ++ (text "_bucket{le="
          ++ (quoted (show bucket) ++ (text "} " ++ show_count (count_in_bucket bucket values)))))

  -- The buckets, then all values as +Inf, the sum of the sorted values and their number.
  unfoldable pub histogram_text : List Double → Text → List Double → Text
  unfolding bucket_line concat sum_from
  histogram_text buckets name values =
      concat (map (bucket_line name values) buckets)
      ++ (line (
            name
            ++ (text "_bucket{le="
                ++ (quoted (text "+Inf") ++ (text "} " ++ show_count (length values)))))
          ++ (line (name ++ (text "_sum " ++ show (sum_from ops.plus values 0)))
              ++ line (name ++ (text "_count " ++ show_count (length values)))))

  unfoldable pub prometheus_body : List Double → MetricType → Text → MetricData → Text
  unfolding histogram_text
  prometheus_body buckets counter name d = line (name ++ 32 ∷ show d.value)
  prometheus_body buckets gauge name d = line (name ++ 32 ∷ show d.value)
  prometheus_body buckets histogram name d =
      histogram_text buckets name (sort ops.order d.histogram_values)

  unfoldable pub prometheus_entry : List Double → Text × MetricData → Text
  unfolding prometheus_body type_to_name
  prometheus_entry buckets (name, d) =
      line (text "# TYPE " ++ (name ++ 32 ∷ type_to_name d.kind))
      ++ line (prometheus_body buckets d.kind name d)

  unfoldable pub export_prometheus : Metrics → Text
  unfolding concat prometheus_entry
  export_prometheus s = concat (map (prometheus_entry s.histogram_buckets) s.metrics)

  unfoldable pub json_samples : MetricType → MetricData → Text
  json_samples counter d = []
  json_samples gauge d = []
  json_samples histogram d =
      line (text ",")
      ++ (text "      "
          ++ (quoted (text "samples") ++ (text ": " ++ show_count (length d.histogram_values))))

  unfoldable pub json_entry : Text × MetricData → Text
  unfolding json_samples type_to_name
  json_entry (name, d) =
      line (text "    " ++ (quoted name ++ text ": {"))
      ++ (text "      "
          ++ (quoted (text "type")
              ++ (text ": "
                  ++ (line (quoted (type_to_name d.kind) ++ text ",")
                      ++ (text "      "
                          ++ (line
                                (quoted (text "value") ++ (text ": " ++ (show d.value ++ text ",")))
                              ++ (text "      "
                                  ++ (quoted (text "timestamp")
                                      ++ (text ": "
                                          ++ (show_count d.last_updated
                                              ++ (json_samples d.kind d
                                                  ++ 10 ∷ text "    }")))))))))))

  -- With a comma and a line break between two entries.
  unfoldable pub json_entries : List (Text × MetricData) → Text
  unfolding json_entry
  json_entries [] = []
  json_entries (e ∷ []) = json_entry e
  json_entries (e ∷ f ∷ metrics) = json_entry e ++ (line (text ",") ++ json_entries (f ∷ metrics))

  unfoldable pub export_json : Metrics → Text
  unfolding json_entries
  export_json s =
      line (text "{")
      ++ (line (text "  " ++ (quoted (text "metrics") ++ text ": {"))
          ++ (json_entries s.metrics ++ 10 ∷ (line (text "  }") ++ line (text "}"))))

  unfoldable pub influxdb_entry : Text × MetricData → Text
  influxdb_entry (name, d) =
      line (name ++ (text " value=" ++ (show d.value ++ 32 ∷ show_count d.last_updated)))

  unfoldable pub export_influxdb : Metrics → Text
  unfolding concat influxdb_entry
  export_influxdb s = concat (map influxdb_entry s.metrics)

unfoldable pub set_default_labels : List (Text × Text) → Metrics → Metrics
set_default_labels labels s = record s { default_labels = labels }

unfoldable pub set_histogram_buckets : List Double → Metrics → Metrics
set_histogram_buckets buckets s = record s { histogram_buckets = buckets }
