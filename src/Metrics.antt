-- ===== src/Metrics.antt =====
-- metrics.go: the gauges and counters. A float64 that the code sets from an integer is that integer.
pub mod Registry
use per_node_csi_driver.Prelude.{
  ℕ, ◌+◌, Bool, Option, none, some, List, [], ◌∷◌, ◌++◌, Text, if◌then◌else◌,
}
use per_node_csi_driver.Map.{Map, lookup, insert, erase}

-- The values behind `metrics`, by label where the vector has one.
pub record Readings : Type 0 where
  pub copy_bytes : Map ℕ
  pub reconcile_duration : Map (List ℕ)
  pub reconcile_errors : Map ℕ
  pub watch_restarts : Map ℕ
  pub volumes : ℕ
  pub mount_failures : ℕ

-- `newMetrics`: every vector has no label yet, and the rest is 0.
abbrev pub new_metrics : Readings
new_metrics = record {
  copy_bytes = [];
  reconcile_duration = [];
  reconcile_errors = [];
  watch_restarts = [];
  volumes = 0;
  mount_failures = 0;
}

-- `WithLabelValues(kind).Inc()`: a label that is new starts at 0.
abbrev pub count_of : Option ℕ → ℕ
count_of none = 0
count_of (some n) = n

unfoldable pub increment : Text → Map ℕ → Map ℕ
increment kind m = insert kind (count_of (lookup kind m) + 1) m

-- `WithLabelValues(kind).Observe(…)`
abbrev pub seen : Option (List ℕ) → List ℕ
seen none = []
seen (some observed) = observed

unfoldable pub observe : Text → ℕ → Map (List ℕ) → Map (List ℕ)
observe kind duration m = insert kind (seen (lookup kind m) ++ duration ∷ []) m

-- `record`
unfoldable pub record_bytes : Text → ℕ → Readings → Readings
record_bytes handle bytes m = record m { copy_bytes = insert handle bytes m.copy_bytes }

-- `forget`
unfoldable pub forget : Text → Readings → Readings
forget handle m = record m { copy_bytes = erase handle m.copy_bytes }

-- `recordCall`
unfoldable pub record_call : Text → ℕ → Bool → Readings → Readings
unfolding increment observe
record_call kind duration failed m = record m {
  reconcile_duration = observe kind duration m.reconcile_duration;
  reconcile_errors = if failed then increment kind m.reconcile_errors else m.reconcile_errors;
}

-- `watchRestarted`
unfoldable pub watch_restarted : Text → Readings → Readings
unfolding increment
watch_restarted kind m = record m { watch_restarts = increment kind m.watch_restarts }

-- `setVolumes`
unfoldable pub set_volumes : ℕ → Readings → Readings
set_volumes count m = record m { volumes = count }

-- `mountFailed`
unfoldable pub mount_failed : Readings → Readings
mount_failed m = record m { mount_failures = m.mount_failures + 1 }
