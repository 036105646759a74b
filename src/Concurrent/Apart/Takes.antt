-- ===== src/Concurrent/Apart/Takes.antt =====
-- A publish whose handle nobody else takes or gives up meanwhile.
use per_node_csi_driver.Prelude.{
  ◌≡◌, refl, ◌⊎◌, inl, inr, Option, none, some, [], arith, ◌==◌, text_eq, text_beq_iff,
  text_beq_self, if◌then◌else◌, Bool-cases, subst, sym,
}
use per_node_csi_driver.Prelude.Exec.{Result, ok, err}
use per_node_csi_driver.Status.{Status}
use per_node_csi_driver.Handle.{check_handle}
use per_node_csi_driver.Host.{Host, Hold}
use per_node_csi_driver.Events.{Reason}
use per_node_csi_driver.Map.{lookup, insert, lookup-insert}
use per_node_csi_driver.Store.{hold_path}
use per_node_csi_driver.Driver.{Driver, Settings, post}
use per_node_csi_driver.Node.{PublishRequest, pod_in, hold_for, no_target}
use per_node_csi_driver.Node.Publish.Outcome.{HeldAt}
use per_node_csi_driver.Lease.{IsFreeFor}
use per_node_csi_driver.Concurrent.{Thread, ret, read, by_result, andthen}
use per_node_csi_driver.Holds.{holder}
use per_node_csi_driver.Concurrent.Operations.{
  report_volumes, write_hold, keep_hold, refuse, publish_mounted, publish_mount, publish_held,
  node_publish_volume,
}
use per_node_csi_driver.Concurrent.Apart.{Leaves, Follows, Follows-andthen}
use per_node_csi_driver.Concurrent.Apart.Leaves.{
  hold_of, mount-Leaves, write_hold-Leaves, report_volumes-Leaves,
}

-- The hold before is still there, or the pod has the handle, which nobody else had.
abbrev pub MayTake : PublishRequest → Option Hold → Option Hold → Type 0
MayTake r before now =
    (now ≡ before) ⊎ ((now ≡ some (hold_for r)) × IsFreeFor (hold_for r).pod_uid before)

-- What a publish that returned says of the hold.
abbrev pub Took : PublishRequest → Option Hold → Result Status Unit → Option Hold → Type 0
Took r before (ok tt) now = MayTake r before now × HeldAt (pod_in r).uid r.target_path now
Took r before (err s) now = now ≡ before

module _ (H : Host) (cfg : Settings) (r : PublishRequest) (before : Option Hold) where
  abbrev pub Publishes : Option Hold → Thread (Driver H) (Result Status Unit) → Type 0
  Publishes = Follows (hold_of r.volume_id) (MayTake r before) (Took r before)

  -- A rest that leaves the hold alone, once the handle is taken.
  taken_rest :
      {B : Type 0} (m : Thread (Driver H) B)
      → IsFreeFor (pod_in r).uid before
      → Leaves (hold_of r.volume_id) m
      → Publishes (some (hold_for r)) (andthen m (λ _. ret (ok tt)))
  unfolding hold_for
  taken_rest m free h =
      Follows-andthen (hold_of r.volume_id) (MayTake r before) (Took r before) _ m _
        (inr (refl, free)) h (λ _. (inr (refl, free), (inr (refl, free), (refl, refl))))

  refuse-Publishes : (reason : Reason) (s : Status) → Publishes before (refuse H cfg r reason s)
  unfolding refuse post
  refuse-Publishes reason s = (inl refl, λ d e. (inl e, e))

  keep_hold-Publishes :
      IsFreeFor (pod_in r).uid before
      → Publishes before (andthen (keep_hold H cfg r.volume_id (hold_for r)) (λ _. ret (ok tt)))
  unfolding keep_hold andthen
  keep_hold-Publishes free = (
    inl refl,
    λ d e.
        subst
          (λ x. Publishes x (
            andthen
              (report_volumes H
                (write_hold H cfg (hold_path cfg.root r.volume_id) (H.marshal (hold_for r))))
              (λ _. ret (ok tt))))
          (sym (taken d))
          (taken_rest _ free (
            report_volumes-Leaves H r.volume_id _ (
              write_hold-Leaves H cfg r.volume_id (hold_path cfg.root r.volume_id)
                (H.marshal (hold_for r))))),
  )
    where
      taken :
          (d : Driver H)
          → lookup r.volume_id (insert r.volume_id (hold_for r) d.holds) ≡ some (hold_for r)
      taken d = ground (
        arith,
        lookup-insert r.volume_id r.volume_id (hold_for r) d.holds,
        text_beq_self r.volume_id,
      )

  publish_mount-Publishes :
      IsFreeFor (pod_in r).uid before → Publishes before (publish_mount H cfg r)
  unfolding publish_mount publish_mounted
  publish_mount-Publishes free =
      Follows-andthen (hold_of r.volume_id) (MayTake r before) (Took r before) before _ _ (inl refl)
        (mount-Leaves H cfg r.volume_id r) by_mount
    where
      by_mount : (result : Result Status Unit) → Publishes before (publish_mounted H cfg r result)
      by_mount (ok tt) = keep_hold-Publishes free
      by_mount (err s) = (
        inl refl,
        λ d e.
            subst (λ x. Publishes x (refuse H cfg r Reason.mount_failed s)) (sym e)
              (refuse-Publishes Reason.mount_failed s),
      )

module _ (H : Host) (cfg : Settings) (r : PublishRequest) where
  publish_held-Publishes :
      (before : Option Hold) → Publishes H cfg r before before (publish_held H cfg r before)
  unfolding publish_held
  publish_held-Publishes none = publish_mount-Publishes H cfg r none tt
  publish_held-Publishes (some standing) = elim (Bool-cases (standing.pod_uid == (pod_in r).uid)) [
    | inr other ↦ rw other (refuse-Publishes H cfg r (some standing) Reason.held _)
    | inl own ↦
        let free = (text_beq_iff standing.pod_uid (pod_in r).uid).0 own in
        elim (Bool-cases (standing.target == r.target_path)) [
          | inr elsewhere ↦
              rw (own, elsewhere) (publish_mount-Publishes H cfg r (some standing) free)
          | inl there ↦
              rw (own, there)
                (inl refl, (inl refl, (free, (text_beq_iff standing.target r.target_path).0 there)))
        ]
  ]

  publish_checked-Publishes :
      (before : Option Hold) (checked : Result Status Unit)
      → Publishes H cfg r before before (
          by_result
            (λ _.
              if r.target_path == []
              then ret (err no_target)
              else read (holder r.volume_id) (publish_held H cfg r))
            (refuse H cfg r Reason.refused)
            checked)
  publish_checked-Publishes before (err s) = refuse-Publishes H cfg r before Reason.refused s
  publish_checked-Publishes before (ok tt) = elim (Bool-cases (r.target_path == [])) [
    | inl empty ↦ rw empty (inl refl, refl)
    | inr named ↦ rw named (
      inl refl,
      λ d e.
          subst (λ x. Publishes H cfg r before x (publish_held H cfg r x)) (sym e)
            (publish_held-Publishes before),
    )
  ]

  pub node_publish_volume-Publishes :
      (before : Option Hold) → Publishes H cfg r before before (node_publish_volume H cfg r)
  unfolding node_publish_volume
  node_publish_volume-Publishes before =
      publish_checked-Publishes before (check_handle H.quoted r.volume_id)
