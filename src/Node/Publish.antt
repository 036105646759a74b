-- ===== src/Node/Publish.antt =====
-- `NodePublishVolume` and `mount` of node.go.
pub mod Copied
pub mod Outcome
pub mod Errors
pub mod Mounted
pub mod Race
pub mod Twice
use per_node_csi_driver.Prelude.{not, Option, none, some, [], ◌==◌, text_eq, if◌then◌else◌}
use per_node_csi_driver.Prelude.Exec.{Result, ok, err, Exec, pure, raise, resume_with, handle}
use per_node_csi_driver.Prelude.Exec.{◌>>=◌, ◌>>◌}
use per_node_csi_driver.Status.{Status}
use per_node_csi_driver.Handle.{check_handle}
use per_node_csi_driver.Host.{Fault, Host, Hold}
use per_node_csi_driver.Metrics.{mount_failed}
use per_node_csi_driver.Events.{Reason, warning}
use per_node_csi_driver.Store.{copy_path, make_copy}
use per_node_csi_driver.Mount.{bind, unbind}
use per_node_csi_driver.Driver.{Driver, Settings, on_host, does, on_readings, post}
use per_node_csi_driver.Holds.{holder, keep_hold}
use per_node_csi_driver.Node.{PublishRequest, no_target, internal_error, held_by, pod_in, hold_for}

module _ (H : Host) (cfg : Settings) where
  -- A call of the kernel inside `mount`, with its error made a status.
  abbrev internally : Exec H.State Fault Unit → Exec H.State Status Unit
  internally m = handle m pure (λ fault. raise (internal_error fault))

  -- `mount`
  unfoldable pub mount : PublishRequest → Exec H.State Status Unit
  mount request = do
    internally (make_copy H cfg.root request.volume_id)
    internally (H.mkdir_all request.target_path 0o755)
    internally (unbind H request.target_path)
    internally (bind H (copy_path cfg.root request.volume_id) request.target_path request.read_only)

  -- An Event on the pod, and the error.
  unfoldable pub refuse : PublishRequest → Reason → Status → Exec (Driver H) Status Unit
  refuse request reason s = do does (post cfg (pod_in request) warning reason s.message); raise s

  -- The end of NodePublishVolume: the mount and the hold.
  unfoldable pub publish_mount : PublishRequest → Exec (Driver H) Status Unit
  publish_mount request =
      handle (on_host (mount request))
        (λ _. does (keep_hold H cfg request.volume_id (hold_for request)))
        (λ s. do does (on_readings mount_failed); refuse request Reason.mount_failed s)

  -- The middle of NodePublishVolume: what `holder` returned.
  unfoldable pub publish_held : PublishRequest → Option Hold → Exec (Driver H) Status Unit
  publish_held request none = publish_mount request
  publish_held request (some standing) =
      if not (standing.pod_uid == (pod_in request).uid)
      then refuse request Reason.held (held_by request.volume_id cfg.node_id standing)
      else if standing.target == request.target_path
      then pure tt
      else publish_mount request

  -- `NodePublishVolume`
  unfoldable pub node_publish_volume : PublishRequest → Exec (Driver H) Status Unit
  node_publish_volume request =
      resume_with (check_handle H.quoted request.volume_id)
        (λ _ d.
          if request.target_path == []
          then (err no_target, d)
          else publish_held request (holder request.volume_id d) d)
        (λ s. refuse request Reason.refused s)
