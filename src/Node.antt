-- ===== src/Node.antt =====
-- node.go: the requests of the CSI Node service, and the errors it returns. The calls are in the
-- modules below.
pub mod Publish
pub mod Unpublish
pub mod Stats
pub mod Invariant
use per_node_csi_driver.Prelude.{ℕ, Bool, ◌++◌, Text, codes}
use per_node_csi_driver.Status.{Status, invalid_argument, failed_precondition, internal, not_found}
use per_node_csi_driver.Host.{Fault, Hold}
use per_node_csi_driver.Map.{Map}
use per_node_csi_driver.Events.{PodReference, pod_of}

-- `csi.NodePublishVolumeRequest`, the fields that are read
pub record PublishRequest : Type 0 where
  pub volume_id : Text
  pub target_path : Text
  pub read_only : Bool
  pub volume_context : Map Text

pub record UnpublishRequest : Type 0 where
  pub volume_id : Text
  pub target_path : Text

pub record StatsRequest : Type 0 where
  pub volume_id : Text
  pub volume_path : Text

-- `csi.VolumeUsage` in bytes
pub record Usage : Type 0 where
  pub used : ℕ
  pub available : ℕ
  pub total : ℕ

unfoldable pub no_target : Status
no_target = record {
  code = invalid_argument;
  message = codes "target_path: the call names no path";
}

unfoldable pub no_volume_path : Status
no_volume_path = record {
  code = invalid_argument;
  message = codes "volume_path: the call names no path";
}

-- `status.Error(codes.Internal, err.Error())`
unfoldable pub internal_error : Fault → Status
internal_error fault = record { code = internal; message = fault.message }

unfoldable pub held_by : Text → Text → Hold → Status
held_by handle node_id standing = record {
  code = failed_precondition;
  message =
      codes "volume_id: "
      ++ (handle
          ++ (codes " is held on "
              ++ (node_id
                  ++ (codes " by pod "
                      ++ (standing.pod_namespace ++ (codes "/" ++ standing.pod_name))))));
}

unfoldable pub no_copy : Text → Text → Fault → Status
no_copy handle node_id fault = record {
  code = not_found;
  message =
      codes "volume_id: "
      ++ (handle ++ (codes " has no copy on " ++ (node_id ++ (codes ": " ++ fault.message))));
}

abbrev pub pod_in : PublishRequest → PodReference
pod_in request = pod_of request.volume_context

-- The hold that a publish records.
unfoldable pub hold_for : PublishRequest → Hold
hold_for request = record {
  pod_uid = (pod_in request).uid;
  pod_name = (pod_in request).name;
  pod_namespace = (pod_in request).namespace;
  target = request.target_path;
}
