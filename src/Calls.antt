-- ===== src/Calls.antt =====
-- The calls of a run, one after the other: those of the kubelet and the passes of the sweep.
pub mod Reached
pub mod Restart
pub mod Order
use per_node_csi_driver.Prelude.{List, [], ◌∷◌}
use per_node_csi_driver.Host.{Host}
use per_node_csi_driver.Metrics.{new_metrics}
use per_node_csi_driver.Driver.{Driver, Settings}
use per_node_csi_driver.Holds.{resume}
use per_node_csi_driver.Node.{PublishRequest, UnpublishRequest, StatsRequest}
use per_node_csi_driver.Node.Publish.{node_publish_volume}
use per_node_csi_driver.Node.Unpublish.{node_unpublish_volume}
use per_node_csi_driver.Node.Stats.{node_get_volume_stats}
use per_node_csi_driver.Sweep.{Cached, handles_of, sweep}

pub data Call : Type 0 where
  publish : PublishRequest → Call
  unpublish : UnpublishRequest → Call
  stats : StatsRequest → Call
  pass : List Cached → Call

-- `newNode` on a machine: no holds, and the metrics of `newMetrics`.
unfoldable pub new_node : {H : Host} → H.State → Driver H
new_node s = record { os = s; holds = []; readings = new_metrics; posted = [] }

module _ (H : Host) (cfg : Settings) where
  -- The driver of `newServer` before its first call.
  unfoldable pub start : H.State → Driver H
  start s = resume H cfg (new_node s)

  unfoldable pub call : Call → Driver H → Driver H
  call (publish r) d = (node_publish_volume H cfg r d).1
  call (unpublish r) d = (node_unpublish_volume H cfg r d).1
  call (stats r) d = (node_get_volume_stats H cfg r d).1
  call (pass objects) d = sweep H cfg (handles_of objects) d

  unfoldable pub run : List Call → Driver H → Driver H
  run [] d = d
  run (c ∷ calls) d = run calls (call c d)
