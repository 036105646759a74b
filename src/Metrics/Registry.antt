-- ===== src/Metrics/Registry.antt =====
-- metrics.go: the families that `newMetrics` registers, under which the readings are served.
use per_node_csi_driver.Prelude.{List, [], ◌∷◌, Text, codes, Bool, true, not, ◌&&◌, ◌==◌, text_eq}

-- The type of a collector of the Prometheus client.
pub data Kind : Type 0 where
  gauge counter histogram : Kind

-- `prometheus.GaugeOpts`, `CounterOpts` and `HistogramOpts`, with the names of the labels.
pub record Family : Type 0 where
  pub kind : Kind
  pub name : Text
  pub help : Text
  pub labels : List Text

-- `component`
unfoldable component : Text
component = codes "per-node-csi-driver"

-- `copyLabels`
unfoldable copy_labels : List Text
copy_labels = codes "volume" ∷ []

-- `kindLabel`
unfoldable kind_label : List Text
kind_label = codes "kind" ∷ []

-- `buildInfo`: the family, and the values of its labels, of which the sample is 1.
unfoldable build_info : Family
build_info = record {
  kind = gauge;
  name = codes "liken_build_info";
  help = codes "The release the process was built from, value 1.";
  labels = codes "component" ∷ codes "version" ∷ [];
}

unfoldable build_labels : Text → List Text
build_labels version = component ∷ version ∷ []

-- `newMetrics`: the families behind the fields of `Readings`, in their order.
unfoldable families : List Family
unfolding copy_labels kind_label
families =
    record {
      kind = gauge;
      name = codes "per_node_csi_copy_bytes";
      help = codes "Bytes in this node's copy of the volume.";
      labels = copy_labels;
    }
    ∷ record {
      kind = histogram;
      name = codes "per_node_csi_reconcile_duration_seconds";
      help = codes "Time until a CSI operation returns a response.";
      labels = kind_label;
    }
    ∷ record {
      kind = counter;
      name = codes "per_node_csi_reconcile_errors_total";
      help = codes "CSI operations that returned an error.";
      labels = kind_label;
    }
    ∷ record {
      kind = counter;
      name = codes "per_node_csi_watch_restarts_total";
      help = codes "Watches the driver opened again after one ended.";
      labels = kind_label;
    }
    ∷ record {
      kind = gauge;
      name = codes "per_node_csi_volumes";
      help = codes "Volumes this node holds a copy of for a pod that has published them.";
      labels = [];
    }
    ∷ record {
      kind = counter;
      name = codes "per_node_csi_mount_failures_total";
      help = codes "Mounts that failed.";
      labels = [];
    }
    ∷ []

-- What is registered after the two collectors of the Go runtime and the process.
unfoldable pub registered : List Family
unfolding build_info families
registered = build_info ∷ families

-- Whether no name stands twice, so that `MustRegister` panics for none.
abbrev is_new : Text → List Family → Bool
is_new name [] = true
is_new name (family ∷ others) = not (family.name == name) && is_new name others

abbrev pub distinct_names : List Family → Bool
distinct_names [] = true
distinct_names (family ∷ others) = is_new family.name others && distinct_names others
