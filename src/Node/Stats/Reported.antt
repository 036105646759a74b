-- ===== src/Node/Stats/Reported.antt =====
-- What NodeGetVolumeStats reports.
use per_node_csi_driver.Prelude.{◌*◌, ◌^◌, ◌<◌, ◌≡◌, ◌≢◌, some, List, [], map, arith}
use per_node_csi_driver.Prelude.{text_beq_iff, text_beq_self}
use per_node_csi_driver.Prelude.Exec.{ok, OnError}
use per_node_csi_driver.Host.{Host, FileInfo, Statfs}
use per_node_csi_driver.Map.{lookup, lookup-insert}
use per_node_csi_driver.Metrics.{record_bytes}
use per_node_csi_driver.Store.{copy_path, copy_size, space_of, space_of_statfs}
use per_node_csi_driver.Store.Size.{plain_total, sum_sizes-total}
use per_node_csi_driver.Driver.{Driver, Settings}
use per_node_csi_driver.Node.{StatsRequest}
use per_node_csi_driver.Node.Stats.{report_usage, stats_of_size, node_get_volume_stats}

module _ (H : Host) (cfg : Settings) (r : StatsRequest) where
  -- Of a request that names a handle and a path: where the walk of the copy meets no error, and neither the bytes of its files nor those of the
  -- file system pass the range of an int64, the call reports the exact sum of the regular files as
  -- used and the products of the file system's blocks as available and total. It puts the same sum
  -- on the gauge of the handle, and changes neither the holds nor the machine.
  pub stats-usage :
      (d : Driver H) (infos : List FileInfo) (space : Statfs)
      → r.volume_id ≢ []
      → r.volume_path ≢ []
      → H.walk (copy_path cfg.root r.volume_id) d.os ≡ map ok infos
      → H.statfs cfg.root d.os ≡ ok space
      → plain_total infos < 2 ^ 63
      → space.available * space.block_size < 2 ^ 63
      → space.blocks * space.block_size < 2 ^ 63
      → let (result, e) = node_get_volume_stats H cfg r d in
        (result
          ≡ ok (record {
            used = plain_total infos;
            available = space.available * space.block_size;
            total = space.blocks * space.block_size;
          }))
        × (lookup r.volume_id e.readings.copy_bytes ≡ some (plain_total infos))
        × (e.holds ≡ d.holds)
        × (e.os ≡ d.os)
  unfolding node_get_volume_stats stats_of_size report_usage copy_size space_of space_of_statfs
      record_bytes
  stats-usage d infos space v p walked stated small free all = ground (
    arith,
    text_beq_iff r.volume_id [],
    text_beq_iff r.volume_path [],
    text_beq_self r.volume_id,
    sum_sizes-total infos small,
    lookup-insert r.volume_id r.volume_id (plain_total infos) d.readings.copy_bytes,
  )

  -- A call that fails changes nothing at all.
  pub stats_failed :
      (d : Driver H)
      → OnError (λ _. (node_get_volume_stats H cfg r d).1 ≡ d) (node_get_volume_stats H cfg r d).0
  unfolding node_get_volume_stats stats_of_size report_usage
  stats_failed d = ground arith
