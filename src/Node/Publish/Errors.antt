-- ===== src/Node/Publish/Errors.antt =====
-- How a publish that fails is reported: the code, the Event on the pod, and the counter.
use per_node_csi_driver.Prelude.{ℕ, ◌+◌, ◌≡◌, ◌≢◌, true, Option, none, some, [], ◌∷◌, ◌++◌, arith}
use per_node_csi_driver.Prelude.{Text, codes, text_beq_iff}
use per_node_csi_driver.Text.{dot}
use per_node_csi_driver.Prelude.Exec.{Result, ok, err, OnError}
use per_node_csi_driver.Status.{Code, Status, internal, failed_precondition}
use per_node_csi_driver.Handle.Check.{refusal_code}
use per_node_csi_driver.Host.{Host, Hold}
use per_node_csi_driver.Map.{lookup}
use per_node_csi_driver.Metrics.{mount_failed, set_volumes}
use per_node_csi_driver.Events.{Event, warning, event_on, reason_text, driver_name}
use per_node_csi_driver.Events
use per_node_csi_driver.Driver.{Driver, Settings, post}
use per_node_csi_driver.Holds.{keep_hold, report_volumes}
use per_node_csi_driver.Node.{PublishRequest, pod_in, held_by, internal_error, no_target}
use per_node_csi_driver.Node.Publish.{
  mount, refuse, publish_mount, publish_held, node_publish_volume,
}

-- The reason that the Event gives for a code.
abbrev pub reason_of : Code → Text
reason_of failed_precondition = codes "PerNodeVolumeHeld"
reason_of internal = codes "PerNodeMountFailed"
reason_of _ = codes "PerNodeVolumeRefused"

-- The mounts that a result counts as failed.
abbrev pub failed_mounts : Result Status Unit → ℕ
failed_mounts (ok tt) = 0
failed_mounts (err s) = of_code s.code
  where
    of_code : Code → ℕ
    of_code internal = 1
    of_code _ = 0

module _ (H : Host) (cfg : Settings) (r : PublishRequest) where
  mount-internal : (s : H.State) → OnError (λ e. e.code ≡ internal) (mount H cfg r s).0
  unfolding mount internal_error
  mount-internal s = ground arith

  publish_held-failures :
      (d : Driver H) (standing : Option Hold)
      → let (result, e) = publish_held H cfg r standing d in
        e.readings.mount_failures ≡ d.readings.mount_failures + failed_mounts result
  unfolding publish_held publish_mount refuse post keep_hold report_volumes set_volumes mount_failed
      held_by
  publish_held-failures d none = ground (arith, mount-internal d.os)
  publish_held-failures d (some standing) = ground (arith, mount-internal d.os)

  -- The counter of failed mounts goes up by one exactly when the publish returns Internal.
  pub publish-failures :
      (d : Driver H)
      → let (result, e) = node_publish_volume H cfg r d in
        e.readings.mount_failures ≡ d.readings.mount_failures + failed_mounts result
  unfolding node_publish_volume refuse post no_target
  publish-failures d = ground (
    arith,
    publish_held-failures d (lookup r.volume_id d.holds),
    refusal_code H.quoted r.volume_id,
  )

  -- The Event that explains an error to the pod.
  abbrev pub explained : Driver H → Status → Event
  explained d s = record {
    generate_name = (pod_in r).name ++ dot ∷ [];
    involved = pod_in r;
    reason = reason_of s.code;
    message = s.message;
    event_type = warning;
    component = codes "per-node.liken.sh";
    host = cfg.node_id;
    first_timestamp = H.now d.os;
    last_timestamp = H.now d.os;
  }

  publish_held-event :
      (d : Driver H) (standing : Option Hold)
      → cfg.has_client ≡ true
      → (pod_in r).name ≢ []
      → (pod_in r).namespace ≢ []
      → let (result, e) = publish_held H cfg r standing d in
        (result ≡ ok tt → e.posted ≡ d.posted)
        × OnError (λ s. e.posted ≡ d.posted ++ explained e s ∷ []) result
  unfolding publish_held publish_mount refuse post keep_hold report_volumes set_volumes mount_failed
      held_by Events.post event_on reason_text driver_name
  publish_held-event d none c n ns = ground (
    arith,
    mount-internal d.os,
    text_beq_iff (pod_in r).name [],
    text_beq_iff (pod_in r).namespace [],
  )
  publish_held-event d (some standing) c n ns = ground (
    arith,
    mount-internal d.os,
    text_beq_iff (pod_in r).name [],
    text_beq_iff (pod_in r).namespace [],
  )

  -- In a cluster, and for a pod that the kubelet named: a publish that succeeds posts no Event, and
  -- one that fails posts one Event on the pod, a warning with the message of the error and the
  -- reason that fits its code, unless what it lacks is the target path.
  pub publish-event :
      (d : Driver H)
      → cfg.has_client ≡ true
      → (pod_in r).name ≢ []
      → (pod_in r).namespace ≢ []
      → r.target_path ≢ []
      → let (result, e) = node_publish_volume H cfg r d in
        (result ≡ ok tt → e.posted ≡ d.posted)
        × OnError (λ s. e.posted ≡ d.posted ++ explained e s ∷ []) result
  unfolding node_publish_volume refuse post Events.post event_on reason_text driver_name
  publish-event d c n ns t = ground (
    arith,
    publish_held-event d (lookup r.volume_id d.holds) c n ns,
    refusal_code H.quoted r.volume_id,
    text_beq_iff r.target_path [],
    text_beq_iff (pod_in r).name [],
    text_beq_iff (pod_in r).namespace [],
  )
