-- ===== src/Events.antt =====
-- events.go: the Events that the driver posts on pods.
use per_node_csi_driver.Prelude.{
  ℕ, Bool, not, ◌||◌, Option, none, some, List, [], ◌∷◌, ◌++◌, Text, codes,
}
use per_node_csi_driver.Prelude.{◌==◌, text_eq, if◌then◌else◌}
use per_node_csi_driver.Map.{Map, lookup}
use per_node_csi_driver.Prelude.Exec.{Result, ok, err}
use per_node_csi_driver.Host.{Fault}
use per_node_csi_driver.Text.{dot}

-- identity.go: `driverName`
unfoldable pub driver_name : Text
driver_name = codes "per-node.liken.sh"

-- `reasonRefused`, `reasonHeld` and `reasonMountFailed`
pub data Reason : Type 0 where
  refused held mount_failed : Reason

unfoldable pub reason_text : Reason → Text
reason_text refused = codes "PerNodeVolumeRefused"
reason_text held = codes "PerNodeVolumeHeld"
reason_text mount_failed = codes "PerNodeMountFailed"

pub record PodReference : Type 0 where
  pub name : Text
  pub namespace : Text
  pub uid : Text

unfoldable pub pod_name_key : Text
pod_name_key = codes "csi.storage.k8s.io/pod.name"

unfoldable pub pod_namespace_key : Text
pod_namespace_key = codes "csi.storage.k8s.io/pod.namespace"

unfoldable pub pod_uid_key : Text
pod_uid_key = codes "csi.storage.k8s.io/pod.uid"

-- A read of a map that lacks the key is the empty string.
abbrev pub or_empty : Option Text → Text
or_empty none = []
or_empty (some value) = value

-- `podOf`
unfoldable pub pod_of : Map Text → PodReference
pod_of context = record {
  name = or_empty (lookup pod_name_key context);
  namespace = or_empty (lookup pod_namespace_key context);
  uid = or_empty (lookup pod_uid_key context);
}

-- corev1.EventTypeNormal and corev1.EventTypeWarning
pub data EventType : Type 0 where
  normal warning : EventType

-- The fields of `corev1.Event` that `post` sets. `Kind`, `APIVersion` and `Count` are constants.
pub record Event : Type 0 where
  pub generate_name : Text
  pub involved : PodReference
  pub reason : Text
  pub message : Text
  pub event_type : EventType
  pub component : Text
  pub host : Text
  pub first_timestamp : ℕ
  pub last_timestamp : ℕ

unfoldable pub event_on : Text → ℕ → PodReference → EventType → Reason → Text → Event
event_on node now pod kind reason message = record {
  generate_name = pod.name ++ dot ∷ [];
  involved = pod;
  reason = reason_text reason;
  message = message;
  event_type = kind;
  component = driver_name;
  host = node;
  first_timestamp = now;
  last_timestamp = now;
}

-- `post`: the Events that are sent to the API server. Whether it takes one changes only the log.
unfoldable pub post :
    Bool → Text → ℕ → PodReference → EventType → Reason → Text → List Event → List Event
post has_client node now pod kind reason message posted =
    if not has_client || (pod.name == [] || pod.namespace == [])
    then posted
    else posted ++ event_on node now pod kind reason message ∷ []

-- `events`, of the client of the cluster's API and the name of the node.
pub record Posting (Client : Type 0) : Type 0 where
  pub client : Option Client
  pub node : Text

module _ {Config Client : Type 0} where
  client_from : (Config → Result Fault Client) → Result Fault Config → Option Client
  client_from new_for_config (err fault) = none
  client_from new_for_config (ok config) = made (new_for_config config)
    where
      made : Result Fault Client → Option Client
      made (err fault) = none
      made (ok client) = some client

  -- `eventsFrom`, with what `load` and `kubernetes.NewForConfig` answer.
  unfoldable pub events_from :
      Text → Result Fault Config → (Config → Result Fault Client) → Posting Client
  unfolding client_from
  events_from node load new_for_config = record {
    client = client_from new_for_config load;
    node = node;
  }
