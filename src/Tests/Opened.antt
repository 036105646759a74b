-- ===== src/Tests/Opened.antt =====
-- A publish, opened for the tests that run it.
use per_node_csi_driver.Prelude.{text_beq}
use per_node_csi_driver.Prelude.Exec.{Result}
use per_node_csi_driver.Status.{Status}
use per_node_csi_driver.Handle.{check_handle}
use per_node_csi_driver.Regex.{match_string}
use per_node_csi_driver.Map.{lookup, insert}
use per_node_csi_driver.Metrics.{set_volumes}
use per_node_csi_driver.Events.{pod_of, pod_name_key, pod_namespace_key, pod_uid_key}
use per_node_csi_driver.Text.{split, join}
use per_node_csi_driver.Path.{join_path, directory_of}
use per_node_csi_driver.Store.{copy_path, hold_path, copies_directory, holds_directory, make_copy}
use per_node_csi_driver.Mount.{bind, bind_read_only, make_read_only, unbind}
use per_node_csi_driver.Driver.{Driver, post}
use per_node_csi_driver.Holds.{keep_hold, write_hold, write_content, report_volumes}
use per_node_csi_driver.Node.{hold_for, PublishRequest}
use per_node_csi_driver.Node.Publish.{
  mount, refuse, publish_mount, publish_held, node_publish_volume,
}
use per_node_csi_driver.Prelude.{text_eq}
use per_node_csi_driver.Host.{Host}
use per_node_csi_driver.Prelude.Exec.{Result}
use per_node_csi_driver.Status.{Status}
use per_node_csi_driver.Tests.Data.{cfg}

-- The whole call, opened.
unfoldable pub publish_on : (H : Host) → PublishRequest → Driver H → Result Status Unit × Driver H
unfolding node_publish_volume publish_held publish_mount refuse post mount check_handle match_string
    lookup insert keep_hold write_hold write_content report_volumes set_volumes hold_for pod_of
    pod_name_key pod_namespace_key pod_uid_key copy_path hold_path join_path directory_of
    copies_directory holds_directory make_copy bind bind_read_only make_read_only unbind text_beq
    split join
publish_on H = node_publish_volume H cfg
