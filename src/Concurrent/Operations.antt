-- ===== src/Concurrent/Operations.antt =====
-- The calls of the driver as goroutines: an access to the machine, to the holds under their lock, or
-- to a metric at a time.
pub mod Alone
use per_node_csi_driver.Prelude.{
  ℕ, Bool, not, ◌||◌, Option, none, some, List, [], ◌∷◌, Text, length, ◌==◌, nat_eq, text_eq,
}
use per_node_csi_driver.Prelude.{if◌then◌else◌}
use per_node_csi_driver.Prelude.Exec.{Result, ok, err, Exec}
use per_node_csi_driver.Status.{Status}
use per_node_csi_driver.Handle.{check_handle, no_volume}
use per_node_csi_driver.Host.{Fault, Host, Hold}
use per_node_csi_driver.Map.{Map, lookup, insert, erase}
use per_node_csi_driver.Metrics.{set_volumes, mount_failed, forget, record_bytes}
use per_node_csi_driver.Events.{Reason, warning}
use per_node_csi_driver.Path.{directory_of}
use per_node_csi_driver.Store.{
  copy_path, copy_mode, hold_path, copy_size, space_of, handles, remove_copy,
}
use per_node_csi_driver.Mount.{
  ms_bind, mnt_detach, remount_flags, wrap, bind_failed, remount_failed, unmount_failed, is_absent,
  enoent,
}
use per_node_csi_driver.Driver.{Driver, Settings, on_host, on_readings, post}
use per_node_csi_driver.Holds.{holder, held_handles}
use per_node_csi_driver.Node.{
  PublishRequest, UnpublishRequest, StatsRequest, Usage, no_volume_path, no_copy, no_target,
  internal_error, held_by, pod_in, hold_for,
}
use per_node_csi_driver.Sweep.{has, handles_of}
use per_node_csi_driver.Calls.{Call, publish, unpublish, stats, pass}
use per_node_csi_driver.Concurrent.{
  Thread, ret, act, access, read, update, andthen, by_result, call, ◌>>=◌, ◌>>◌, rescue,
}

module _ (H : Host) where
  -- `bindReadWrite`
  unfoldable pub bind_read_write : Text → Text → Thread (Driver H) (Result Fault Unit)
  bind_read_write source target =
      rescue (call (on_host (H.mount source target [] ms_bind [])))
        (λ fault. ret (err (wrap (bind_failed source target) fault)))

  -- `bindReadOnly`
  unfoldable pub bind_read_only : Text → Text → Thread (Driver H) (Result Fault Unit)
  bind_read_only source target = do
    rescue (call (on_host (H.mount source target [] ms_bind [])))
        (λ fault. ret (err (wrap (bind_failed source target) fault)))
    rescue (call (on_host (H.mount source target [] remount_flags []))) (λ fault.
        access (on_host (H.unmount target mnt_detach))
          (λ _. ret (err (wrap (remount_failed target) fault))))

  -- `bind`
  unfoldable pub bind : Text → Text → Bool → Thread (Driver H) (Result Fault Unit)
  bind source target read_only =
      if read_only then bind_read_only source target else bind_read_write source target

  -- `unbind`
  unfoldable pub unbind : Text → Thread (Driver H) (Result Fault Unit)
  unbind target =
      rescue (call (on_host (H.unmount target mnt_detach)))
        (λ fault. ret (if is_absent fault then ok tt else err (wrap (unmount_failed target) fault)))

  -- `reportVolumes`: the count is read under the lock, and set after it.
  unfoldable pub report_volumes : {A : Type 0} → Thread (Driver H) A → Thread (Driver H) A
  report_volumes rest =
      read (λ d. length d.holds) (λ count. update (on_readings (set_volumes count)) rest)

  abbrev pub internally :
      Thread (Driver H) (Result Fault Unit) → Thread (Driver H) (Result Status Unit)
  internally m = rescue m (λ fault. ret (err (internal_error fault)))

module _ (H : Host) (cfg : Settings) where
  -- The file that `keepHold` writes.
  unfoldable pub write_hold : Text → Result Fault Text → Thread (Driver H) Unit
  write_hold path (err fault) = ret tt
  write_hold path (ok content) = access (on_host (H.mkdir_all (directory_of path) 0o755)) (
      by_result
        (λ _. update (λ d. record d { os = (H.write_file path content 0o600 d.os).1 }) (ret tt))
        (λ fault. ret tt))

  -- `keepHold`
  unfoldable pub keep_hold : Text → Hold → Thread (Driver H) Unit
  keep_hold handle taken =
      update (λ d. record d { holds = insert handle taken d.holds })
        (report_volumes H (write_hold (hold_path cfg.root handle) (H.marshal taken)))

  -- `dropHold`
  unfoldable pub drop_hold : Text → Thread (Driver H) Unit
  drop_hold handle =
      update (λ d. record d { holds = erase handle d.holds })
        (report_volumes H
          (update (λ d. record d { os = (H.remove (hold_path cfg.root handle) d.os).1 }) (ret tt)))

  -- `mount` of node.go
  unfoldable pub mount : PublishRequest → Thread (Driver H) (Result Status Unit)
  mount r = do
    internally H (call (on_host (H.mkdir_all (copy_path cfg.root r.volume_id) copy_mode)))
    internally H (call (on_host (H.chmod (copy_path cfg.root r.volume_id) copy_mode)))
    internally H (call (on_host (H.mkdir_all r.target_path 0o755)))
    internally H (unbind H r.target_path)
    internally H (bind H (copy_path cfg.root r.volume_id) r.target_path r.read_only)

  unfoldable pub refuse : PublishRequest → Reason → Status → Thread (Driver H) (Result Status Unit)
  refuse r reason s = update (post cfg (pod_in r) warning reason s.message) (ret (err s))

  -- The end of NodePublishVolume: what `mount` returned.
  unfoldable pub publish_mounted :
      PublishRequest → Result Status Unit → Thread (Driver H) (Result Status Unit)
  publish_mounted r (ok tt) = andthen (keep_hold r.volume_id (hold_for r)) (λ _. ret (ok tt))
  publish_mounted r (err s) = update (on_readings mount_failed) (refuse r Reason.mount_failed s)

  unfoldable pub publish_mount : PublishRequest → Thread (Driver H) (Result Status Unit)
  publish_mount r = andthen (mount r) (publish_mounted r)

  -- What follows the reading of the holder.
  unfoldable pub publish_held :
      PublishRequest → Option Hold → Thread (Driver H) (Result Status Unit)
  publish_held r none = publish_mount r
  publish_held r (some standing) =
      if not (standing.pod_uid == (pod_in r).uid)
      then refuse r Reason.held (held_by r.volume_id cfg.node_id standing)
      else if standing.target == r.target_path
      then ret (ok tt)
      else publish_mount r

  -- `NodePublishVolume`
  unfoldable pub node_publish_volume : PublishRequest → Thread (Driver H) (Result Status Unit)
  node_publish_volume r =
      by_result
        (λ _.
          if r.target_path == []
          then ret (err no_target)
          else read (holder r.volume_id) (publish_held r))
        (refuse r Reason.refused) (check_handle H.quoted r.volume_id)

  -- The mount and the target directory go.
  unfoldable pub clear_target : Text → Thread (Driver H) (Result Status Unit)
  clear_target target = do
    internally H (unbind H target)
    rescue (call (on_host (H.remove target)))
        (λ fault. ret (if fault.errno == enoent then ok tt else err (internal_error fault)))

  -- What follows the reading of the holder in NodeUnpublishVolume.
  unfoldable pub give_up : UnpublishRequest → Thread (Driver H) (Result Status Unit)
  give_up r =
      andthen (drop_hold r.volume_id) (λ _. update (on_readings (forget r.volume_id)) (ret (ok tt)))

  unfoldable pub unpublish_held :
      UnpublishRequest → Option Hold → Thread (Driver H) (Result Status Unit)
  unpublish_held r none = give_up r
  unpublish_held r (some standing) =
      if not (standing.target == r.target_path) then ret (ok tt) else give_up r

  -- `NodeUnpublishVolume`
  unfoldable pub node_unpublish_volume : UnpublishRequest → Thread (Driver H) (Result Status Unit)
  node_unpublish_volume r =
      if r.volume_id == []
      then ret (err no_volume)
      else if r.target_path == []
      then ret (err no_target)
      else do clear_target r.target_path; read (holder r.volume_id) (unpublish_held r)

  -- The loop of `sweep`.
  unfoldable pub sweep_copies :
      Map Bool → Map Bool → List Text → Thread (Driver H) (Result Status Unit)
  sweep_copies named held [] = ret (ok tt)
  sweep_copies named held (handle ∷ copies) =
      let rest = sweep_copies named held copies in
      if has named handle || has held handle
      then rest
      else access (on_host (remove_copy H cfg.root handle))
          (by_result (λ _. update (on_readings (forget handle)) rest) (λ fault. rest))

  -- `sweep`: the holds are read first, then the directory of the copies.
  unfoldable pub sweep : Map Bool → Thread (Driver H) (Result Status Unit)
  sweep named =
      read held_handles
        (λ held. read (λ d. handles H cfg.root d.os) (λ copies. sweep_copies named held copies))

  -- The end of NodeGetVolumeStats.
  unfoldable pub report_usage :
      Text → ℕ → Result Fault (ℕ × ℕ) → Thread (Driver H) (Result Status Usage)
  report_usage handle used (err fault) = ret (err (internal_error fault))
  report_usage handle used (ok (available, total)) =
      update (on_readings (record_bytes handle used))
        (ret (ok (record { used = used; available = available; total = total })))

  -- `NodeGetVolumeStats`: the walk of the copy only reads, and is one access here.
  unfoldable pub node_get_volume_stats : StatsRequest → Thread (Driver H) (Result Status Usage)
  node_get_volume_stats r =
      if r.volume_id == []
      then ret (err no_volume)
      else if r.volume_path == []
      then ret (err no_volume_path)
      else read (λ d. copy_size H (copy_path cfg.root r.volume_id) d.os)
          (by_result (λ used. read (λ d. space_of H cfg.root d.os) (report_usage r.volume_id used))
            (λ fault. ret (err (no_copy r.volume_id cfg.node_id fault))))

  -- The goroutine of a call. A pass gets the list that `follow` took from the informer's store.
  unfoldable pub serve : Call → Thread (Driver H) (Result Status Unit)
  serve (publish r) = node_publish_volume r
  serve (unpublish r) = node_unpublish_volume r
  serve (stats r) =
      andthen (node_get_volume_stats r) (λ result. ret (by_result (λ _. ok tt) err result))
  serve (pass objects) = sweep (handles_of objects)
