-- ===== src/Examples/Restored.antt =====
-- A gauge and a histogram that go through a snapshot.
use dann.Prelude.{◌≡◌, refl, some, [], ◌∷◌}
use dann.Dict.{find, text_key}
use dann.Config.{text}
use dann.Metrics.{gauge, histogram, MetricData, fresh, Metrics, start}
use dann.Metrics.Snapshots.{get_snapshot, restore_snapshot, IsMap, restore_snapshot-get_snapshot}
use dann.Examples.Settings.{whole}

abbrev load : MetricData
load = record (fresh gauge) { value = 7; last_updated = 5 }

abbrev spans : MetricData
spans = record (fresh histogram) { histogram_values = 4 ∷ 2 ∷ [] }

abbrev two_metrics : Metrics
two_metrics = record start { metrics = (text "load", load) ∷ (text "ms", spans) ∷ [] }

two_metrics-IsMap : IsMap two_metrics.metrics
unfolding find start
two_metrics-IsMap = (refl, (refl, tt))

restore_snapshot-get_snapshot_example :
    find (text "load") (restore_snapshot (get_snapshot whole two_metrics) start).metrics
    ≡ some (record (fresh gauge) { value = 7; timestamp_ms = 5 })
unfolding find start fresh
restore_snapshot-get_snapshot_example =
    restore_snapshot-get_snapshot whole two_metrics start (text "load") two_metrics-IsMap
