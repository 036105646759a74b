-- ===== src/Node/Publish/Outcome.antt =====
-- What NodePublishVolume returns and leaves, on every branch.
use per_node_csi_driver.Prelude.{◌≡◌, refl, ◌≢◌, []}
use per_node_csi_driver.Prelude.{
  Option, none, some, arith, Text, text_eq, text_beq_iff, text_beq_self,
}
use per_node_csi_driver.Prelude.Exec.{ok}
use per_node_csi_driver.Handle.{check_handle}
use per_node_csi_driver.Host.{Host, Hold}
use per_node_csi_driver.Map.{lookup, lookup-insert}
use per_node_csi_driver.Driver.{Driver, Settings, post}
use per_node_csi_driver.Holds.{keep_hold, report_volumes}
use per_node_csi_driver.Node.{PublishRequest, pod_in, hold_for}
use per_node_csi_driver.Node.Publish.{refuse, publish_mount, publish_held, node_publish_volume}

-- The handle is held by the pod with this uid, at this target.
abbrev pub HeldAt : Text → Text → Option Hold → Type 0
HeldAt uid target none = ⊥
HeldAt uid target (some standing) = (standing.pod_uid ≡ uid) × (standing.target ≡ target)

module _ (H : Host) (cfg : Settings) (r : PublishRequest) where
  -- A pod that does not hold the handle while another pod does gets an error, and the kernel is not
  -- called: the holds, the files and the mounts stay as they are.
  pub publish_held_by_other :
      (d : Driver H) {standing : Hold}
      → lookup r.volume_id d.holds ≡ some standing
      → standing.pod_uid ≢ (pod_in r).uid
      → let (result, e) = node_publish_volume H cfg r d in
        (result ≢ ok tt) × (e.holds ≡ d.holds) × (e.os ≡ d.os) × (e.readings ≡ d.readings)
  unfolding node_publish_volume publish_held refuse post
  publish_held_by_other d {standing} held other =
      ground (arith, text_beq_iff standing.pod_uid (pod_in r).uid)

  pub publish_mount-holds :
      (d : Driver H)
      → let (result, e) = publish_mount H cfg r d in
        (result ≡ ok tt → lookup r.volume_id e.holds ≡ some (hold_for r))
        × (result ≢ ok tt → e.holds ≡ d.holds)
  unfolding publish_mount refuse post keep_hold report_volumes
  publish_mount-holds d =
      ground (
        arith,
        text_beq_self r.volume_id,
        lookup-insert r.volume_id r.volume_id (hold_for r) d.holds,
      )

  publish_held-holds :
      (d : Driver H) (standing : Option Hold)
      → lookup r.volume_id d.holds ≡ standing
      → let (result, e) = publish_held H cfg r standing d in
        (result ≡ ok tt → HeldAt (pod_in r).uid r.target_path (lookup r.volume_id e.holds))
        × (result ≢ ok tt → e.holds ≡ d.holds)
  unfolding publish_held refuse post hold_for
  publish_held-holds d none h = ground (arith, publish_mount-holds d)
  publish_held-holds d (some s) h = ground (
    arith,
    publish_mount-holds d,
    text_beq_iff s.pod_uid (pod_in r).uid,
    text_beq_iff s.target r.target_path,
  )

  -- A publish that succeeds leaves the handle held by the pod, at the target of the request. One
  -- that fails leaves the holds as they were.
  pub publish-holds :
      (d : Driver H)
      → let (result, e) = node_publish_volume H cfg r d in
        (result ≡ ok tt → HeldAt (pod_in r).uid r.target_path (lookup r.volume_id e.holds))
        × (result ≢ ok tt → e.holds ≡ d.holds)
  unfolding node_publish_volume refuse post
  publish-holds d = ground (arith, publish_held-holds d (lookup r.volume_id d.holds) refl)

  -- The holds of other handles stay as they were.
  pub publish_elsewhere :
      (d : Driver H) (j : Text)
      → r.volume_id ≢ j
      → lookup j (node_publish_volume H cfg r d).1.holds ≡ lookup j d.holds
  unfolding node_publish_volume publish_held publish_mount refuse post keep_hold report_volumes
  publish_elsewhere d j other =
      ground (arith, text_beq_iff r.volume_id j, lookup-insert r.volume_id j (hold_for r) d.holds)

  publish_ok_checked :
      (d : Driver H)
      → (node_publish_volume H cfg r d).0 ≡ ok tt
      → (check_handle H.quoted r.volume_id ≡ ok tt) × (r.target_path ≢ [])
  unfolding node_publish_volume refuse
  publish_ok_checked d h = ground (arith, text_beq_iff r.target_path [])

  publish_held_again :
      (d : Driver H) (standing : Option Hold)
      → HeldAt (pod_in r).uid r.target_path standing
      → publish_held H cfg r standing d ≡ (ok tt, d)
  unfolding publish_held
  publish_held_again d none h = absurd h
  publish_held_again d (some s) h =
      ground (arith, text_beq_iff s.pod_uid (pod_in r).uid, text_beq_iff s.target r.target_path)

  publish_again :
      (d : Driver H)
      → (check_handle H.quoted r.volume_id ≡ ok tt) × (r.target_path ≢ [])
      → HeldAt (pod_in r).uid r.target_path (lookup r.volume_id d.holds)
      → node_publish_volume H cfg r d ≡ (ok tt, d)
  unfolding node_publish_volume
  publish_again d checked h =
      ground
        (arith, publish_held_again d (lookup r.volume_id d.holds) h, text_beq_iff r.target_path [])

  -- A publish that succeeded can be repeated: it succeeds again and changes nothing, neither the
  -- holds nor the mounts nor the files nor the metrics.
  pub publish_retry :
      (d : Driver H)
      → (node_publish_volume H cfg r d).0 ≡ ok tt
      → node_publish_volume H cfg r (node_publish_volume H cfg r d).1
        ≡ (ok tt, (node_publish_volume H cfg r d).1)
  publish_retry d h = publish_again _ (publish_ok_checked d h) ((publish-holds d).0 h)
