-- ===== src/Concurrent/Running/Publish.antt =====
-- The publishes of other pods, while a pod runs.
use per_node_csi_driver.Prelude.{◌≡◌, ◌≢◌, ◌∙◌, sym, subst, Option, none, some, [], Text}
use per_node_csi_driver.Prelude.{◌==◌, text_eq, text_beq_iff, inl, inr, Bool-cases}
use per_node_csi_driver.Prelude.Exec.{Result, ok, err}
use per_node_csi_driver.Status.{Status}
use per_node_csi_driver.Handle.{check_handle}
use per_node_csi_driver.Host.{Host, Hold}
use per_node_csi_driver.Events.{Reason}
use per_node_csi_driver.Map.{lookup}
use per_node_csi_driver.Driver.{Driver, Settings}
use per_node_csi_driver.Node.{PublishRequest, pod_in, hold_for}
use per_node_csi_driver.Node.Publish.Outcome.{HeldAt}
use per_node_csi_driver.Concurrent.Schedule.{Keeps, Keeps-andthen, Keeps-if}
use per_node_csi_driver.Concurrent.Operations.{
  refuse, publish_mounted, publish_mount, publish_held, node_publish_volume,
}
use per_node_csi_driver.Handle.Check.{IsElement, check_handle-IsElement}
use per_node_csi_driver.Prelude.{refl, if◌then◌else◌}
use per_node_csi_driver.Holds.{holder}
use per_node_csi_driver.Node.{no_target}
use per_node_csi_driver.Concurrent.{ret, read, by_result}
use per_node_csi_driver.Prelude.{◌⊎◌, not}
use per_node_csi_driver.Concurrent.Running.Needs.{Spares}
use per_node_csi_driver.Concurrent.Running.Records.{mount-Keeps, keep_hold-Keeps, refuse-Keeps}
use per_node_csi_driver.Concurrent.Running.{IsRunning}

-- The same pod publishes its handle at its target again.
abbrev pub IsRetry : Text → Text → Text → PublishRequest → Type 0
IsRetry j uid held_target r =
    (r.volume_id ≡ j) × ((pod_in r).uid ≡ uid) × (r.target_path ≡ held_target)

module _ {H : Host} (cfg : Settings) {j : Text} {Q : H.State → Type 0} {Apart : Text → Type 0}
    (S : Spares H cfg.root j Q Apart) (uid held_target : Text) where
  -- What the section is about.
  abbrev P : Driver H → Type 0
  P = IsRunning S uid held_target

  publish_mount-Keeps :
      (r : PublishRequest)
      → Apart r.target_path
      → r.volume_id ≢ j
      → IsElement r.volume_id
      → Keeps P (publish_mount H cfg r)
  unfolding publish_mount publish_mounted
  publish_mount-Keeps r apart other element =
      Keeps-andthen P _ _ (mount-Keeps cfg S uid held_target r apart element) by_mount
    where
      by_mount : (result : Result Status Unit) → Keeps P (publish_mounted H cfg r result)
      by_mount (ok tt) =
          Keeps-andthen P _ _
            (keep_hold-Keeps cfg S uid held_target r.volume_id (hold_for r) other element) (λ a. tt)
      by_mount (err s) = λ d p. (p, refuse-Keeps cfg S uid held_target r Reason.mount_failed s)

  -- A publish of another handle.
  publish_other-Keeps :
      (r : PublishRequest) (standing : Option Hold)
      → Apart r.target_path
      → r.volume_id ≢ j
      → IsElement r.volume_id
      → Keeps P (publish_held H cfg r standing)
  unfolding publish_held
  publish_other-Keeps r none apart other element = publish_mount-Keeps r apart other element
  publish_other-Keeps r (some standing) apart other element =
      Keeps-if P (not (standing.pod_uid == (pod_in r).uid)) _ _
        (refuse-Keeps cfg S uid held_target r Reason.held _)
        (Keeps-if P (standing.target == r.target_path) _ _ tt
          (publish_mount-Keeps r apart other element))

  -- A publish of the handle, by another pod.
  publish_rival-Keeps :
      (r : PublishRequest) (standing : Option Hold)
      → (pod_in r).uid ≢ uid
      → HeldAt uid held_target standing
      → Keeps P (publish_held H cfg r standing)
  unfolding publish_held
  publish_rival-Keeps r none rival held = absurd held
  publish_rival-Keeps r (some standing) rival held =
      elim (Bool-cases (standing.pod_uid == (pod_in r).uid)) [
        | inr other ↦ rw other (refuse-Keeps cfg S uid held_target r Reason.held _)
        | inl own ↦
            absurd (rival (sym ((text_beq_iff standing.pod_uid (pod_in r).uid).0 own) ∙ held.0))
      ]

  -- A publish of the handle, by its pod, at its target.
  publish_again-Keeps :
      (r : PublishRequest) (standing : Option Hold)
      → IsRetry j uid held_target r
      → HeldAt uid held_target standing
      → Keeps P (publish_held H cfg r standing)
  unfolding publish_held
  publish_again-Keeps r none retry held = absurd held
  publish_again-Keeps r (some standing) (same, own, there) held =
      rw
        (
          (text_beq_iff standing.pod_uid (pod_in r).uid).1 (held.0 ∙ sym own),
          (text_beq_iff standing.target r.target_path).1 (held.1 ∙ sym there),
        )
        tt

  -- Of any handle, as long as the pod of this one names no other target for it.
  abbrev pub IsFair : PublishRequest → Type 0
  IsFair r =
      (Apart r.target_path × (r.volume_id ≡ j → (pod_in r).uid ≢ uid)) ⊎ IsRetry j uid held_target r

  publish_held-Keeps :
      (r : PublishRequest) (standing : Option Hold)
      → IsFair r
      → IsElement r.volume_id
      → (r.volume_id ≡ j → HeldAt uid held_target standing)
      → Keeps P (publish_held H cfg r standing)
  publish_held-Keeps r standing (inr retry) element held =
      publish_again-Keeps r standing retry (held retry.0)
  publish_held-Keeps r standing (inl (apart, rival)) element held =
      elim (Bool-cases (r.volume_id == j)) [
        | inl same ↦
            let e = (text_beq_iff r.volume_id j).0 same in
            publish_rival-Keeps r standing (rival e) (held e)
        | inr other ↦
            publish_other-Keeps r standing apart (λ e. cc (other, (text_beq_iff r.volume_id j).1 e))
              element
      ]

  publish_checked-Keeps :
      (r : PublishRequest) (checked : Result Status Unit)
      → IsFair r
      → (checked ≡ ok tt → IsElement r.volume_id)
      → Keeps P (
          by_result
            (λ _.
              if r.target_path == []
              then ret (err no_target)
              else read (holder r.volume_id) (publish_held H cfg r))
            (refuse H cfg r Reason.refused)
            checked)
  publish_checked-Keeps r (err s) fair element =
      refuse-Keeps cfg S uid held_target r Reason.refused s
  publish_checked-Keeps r (ok tt) fair element = Keeps-if P (r.target_path == []) _ _ tt (λ d p. (
    p,
    publish_held-Keeps r (lookup r.volume_id d.holds) fair (element refl)
        (λ e. subst (λ h. HeldAt uid held_target (lookup h d.holds)) (sym e) p.0),
  ))

  pub node_publish_volume-Keeps :
      (r : PublishRequest) → IsFair r → Keeps P (node_publish_volume H cfg r)
  unfolding node_publish_volume
  node_publish_volume-Keeps r fair =
      publish_checked-Keeps r (check_handle H.quoted r.volume_id) fair
        (check_handle-IsElement H.quoted r.volume_id)
