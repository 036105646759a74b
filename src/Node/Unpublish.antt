-- ===== src/Node/Unpublish.antt =====
-- `NodeUnpublishVolume` of node.go.
pub mod Again
pub mod Release
use per_node_csi_driver.Prelude.{not, ◌&&◌, Option, none, some, [], Text, ◌==◌, nat_eq, text_eq}
use per_node_csi_driver.Prelude.{if◌then◌else◌}
use per_node_csi_driver.Prelude.Exec.{Result, ok, err, Exec, pure, raise, handle, ◌>>=◌, ◌>>◌}
use per_node_csi_driver.Status.{Status}
use per_node_csi_driver.Handle.{no_volume}
use per_node_csi_driver.Host.{Fault, Host, Hold}
use per_node_csi_driver.Metrics.{forget}
use per_node_csi_driver.Mount.{enoent, unbind}
use per_node_csi_driver.Driver.{Driver, Settings, on_host, does, on_readings}
use per_node_csi_driver.Holds.{holder, drop_hold}
use per_node_csi_driver.Node.{UnpublishRequest, no_target, internal_error}

module _ (H : Host) where
  -- `os.Remove(target)`, where a target that is gone is no error.
  unfoldable pub remove_target : Text → Exec H.State Status Unit
  remove_target target =
      handle (H.remove target) pure
        (λ fault. if fault.errno == enoent then pure tt else raise (internal_error fault))

  -- The mount and the target directory go.
  unfoldable pub clear_target : Text → Exec H.State Status Unit
  clear_target target = do
    handle (unbind H target) pure (λ fault. raise (internal_error fault))
    remove_target target

module _ (H : Host) (cfg : Settings) where
  unfoldable pub release : Text → Driver H → Driver H
  release handle d = on_readings (forget handle) (drop_hold H cfg handle d)

  -- The hold goes only when it names this target, or when there is none.
  unfoldable pub give_up : UnpublishRequest → Option Hold → Driver H → Driver H
  give_up request none d = release request.volume_id d
  give_up request (some standing) d =
      if not (standing.target == request.target_path) then d else release request.volume_id d

  -- `NodeUnpublishVolume`
  unfoldable pub node_unpublish_volume : UnpublishRequest → Exec (Driver H) Status Unit
  node_unpublish_volume request =
      if request.volume_id == []
      then raise no_volume
      else if request.target_path == []
      then raise no_target
      else do
        on_host (clear_target H request.target_path)
        does (λ d. give_up request (holder request.volume_id d) d)
