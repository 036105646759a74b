-- ===== src/Node/Stats.antt =====
-- `NodeGetVolumeStats` of node.go, and the three calls that read no state.
pub mod Reported
use per_node_csi_driver.Prelude.{ℕ, List, [], ◌∷◌, Text, codes, ◌==◌, text_eq, if◌then◌else◌}
use per_node_csi_driver.Prelude.Exec.{Result, ok, err, Exec, raise}
use per_node_csi_driver.Status.{Status, unimplemented}
use per_node_csi_driver.Handle.{no_volume}
use per_node_csi_driver.Host.{Fault, Host}
use per_node_csi_driver.Metrics.{record_bytes}
use per_node_csi_driver.Store.{copy_path, copy_size, space_of}
use per_node_csi_driver.Driver.{Driver, Settings, on_readings}
use per_node_csi_driver.Node.{StatsRequest, Usage, no_volume_path, internal_error, no_copy}

module _ (H : Host) (cfg : Settings) where
  -- The end of NodeGetVolumeStats: what `space` returned, with the bytes used.
  unfoldable pub report_usage : Text → ℕ → Result Fault (ℕ × ℕ) → Exec (Driver H) Status Usage
  report_usage handle used (err fault) d = raise (internal_error fault) d
  report_usage handle used (ok (available, total)) d = (
    ok (record { used = used; available = available; total = total }),
    on_readings (record_bytes handle used) d,
  )

  -- The middle of it: what `copySize` returned.
  unfoldable pub stats_of_size : Text → Result Fault ℕ → Exec (Driver H) Status Usage
  stats_of_size handle (err fault) d = raise (no_copy handle cfg.node_id fault) d
  stats_of_size handle (ok used) d = report_usage handle used (space_of H cfg.root d.os) d

  -- `NodeGetVolumeStats`
  unfoldable pub node_get_volume_stats : StatsRequest → Exec (Driver H) Status Usage
  node_get_volume_stats request =
      if request.volume_id == []
      then raise no_volume
      else if request.volume_path == []
      then raise no_volume_path
      else λ d.
          stats_of_size request.volume_id (copy_size H (copy_path cfg.root request.volume_id) d.os)
            d

-- `NodeGetInfo`: the node's name, and no topology.
unfoldable pub node_get_info : Settings → Text
node_get_info cfg = cfg.node_id

-- `csi.NodeServiceCapability_RPC_Type`, the two that are declared
pub data Capability : Type 0 where
  get_volume_stats single_node_multi_writer : Capability

-- `NodeGetCapabilities`
unfoldable pub node_get_capabilities : List Capability
node_get_capabilities = get_volume_stats ∷ single_node_multi_writer ∷ []

-- `NodeExpandVolume`
unfoldable pub node_expand_volume : Result Status Unit
node_expand_volume = err (record {
  code = unimplemented;
  message = codes "NodeExpandVolume: a copy has no size of its own";
})
