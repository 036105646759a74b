-- ===== src/Node/Publish/Twice.antt =====
-- A pod that publishes its handle at a second target.
use per_node_csi_driver.Prelude.{
  ◌≡◌, ◌≢◌, ap, ◌∙◌, Option, none, some, arith, Text, text_eq, text_beq_iff, text_beq_self,
}
use per_node_csi_driver.Prelude.Exec.{ok}
use per_node_csi_driver.Host.{Host, Hold}
use per_node_csi_driver.Host.Laws.{MountTable, IsBelow, without_top}
use per_node_csi_driver.Map.{lookup}
use per_node_csi_driver.Store.{hold_path}
use per_node_csi_driver.Driver.{Driver, Settings, post}
use per_node_csi_driver.Holds.{holder, drop_hold, report_volumes}
use per_node_csi_driver.Node.{PublishRequest, UnpublishRequest, pod_in}
use per_node_csi_driver.Node.Publish.{refuse, publish_held, node_publish_volume}
use per_node_csi_driver.Node.Publish.Outcome.{HeldAt, publish-holds}
use per_node_csi_driver.Node.Publish.Race.{unbind_elsewhere, publish_mount_elsewhere}
use per_node_csi_driver.Node.Unpublish.{
  remove_target, clear_target, release, give_up, node_unpublish_volume,
}
use per_node_csi_driver.Node.Unpublish.Release.{released, unpublish-holds}
use per_node_csi_driver.Mount.{unbind}
use per_node_csi_driver.Node.Publish.Mounted.{IsPublished, copy_binding, publish-mounts}
use per_node_csi_driver.Prelude.{◌∷◌}

module _ (H : Host) (T : MountTable H) (cfg : Settings) where
  open T use {mounts}

  published_elsewhere :
      (r : PublishRequest) (path : Text) (d : Driver H)
      → r.target_path ≢ path
      → ¬ IsBelow r.target_path path
      → (node_publish_volume H cfg r d).0 ≡ ok tt
      → mounts (node_publish_volume H cfg r d).1.os path ≡ mounts d.os path
  unfolding node_publish_volume publish_held refuse post
  published_elsewhere r path d other apart h = ground (arith, held (holder r.volume_id d))
    where
      held :
          (standing : Option Hold)
          → (publish_held H cfg r standing d).0 ≡ ok tt
          → mounts (publish_held H cfg r standing d).1.os path ≡ mounts d.os path
      held none h = publish_mount_elsewhere H T cfg r path d other apart h
      held (some standing) h = ground (arith, publish_mount_elsewhere H T cfg r path d other apart)

  unpublished_elsewhere :
      (u : UnpublishRequest) (path : Text) (d : Driver H)
      → u.target_path ≢ path
      → ¬ IsBelow u.target_path path
      → mounts (node_unpublish_volume H cfg u d).1.os path ≡ mounts d.os path
  unfolding node_unpublish_volume give_up release drop_hold report_volumes clear_target
      remove_target
  unpublished_elsewhere u path d other apart =
      let unbound = (unbind H u.target_path d.os).1 in
      let removed = (H.remove u.target_path unbound).1 in
      ground (
        arith,
        unbind_elsewhere H T u.target_path path d.os other apart,
        T.remove_keeps u.target_path path unbound,
        T.remove_keeps (hold_path cfg.root u.volume_id) path removed,
      )

released-HeldAt :
    (uid target : Text) (standing : Option Hold)
    → HeldAt uid target standing
    → released target standing ≡ none
released-HeldAt uid target none held = absurd held
released-HeldAt uid target (some standing) held =
    ground (arith, text_beq_iff standing.target target)

-- The unpublish of the target that a request names.
abbrev pub undo : PublishRequest → UnpublishRequest
undo r = record { volume_id = r.volume_id; target_path = r.target_path }

module _ (H : Host) (T : MountTable H) (cfg : Settings) where
  open T use {mounts}

  -- A hold names one target. Where a pod publishes a handle that it does not hold yet, publishes it
  -- again at a second target, apart from the first one, and that second target is unpublished, all
  -- without an error, then nobody holds the handle any more, and the copy is still mounted at the first
  -- target.
  pub second_target :
      (first second : PublishRequest) (d : Driver H)
      → let between = (node_publish_volume H cfg first d).1 in
        let twice = (node_publish_volume H cfg second between).1 in
        let (result, e) = node_unpublish_volume H cfg (undo second) twice in
        first.volume_id ≡ second.volume_id
        → second.target_path ≢ first.target_path
        → ¬ IsBelow second.target_path first.target_path
        → ¬ IsPublished H T cfg first d
        → (node_publish_volume H cfg first d).0 ≡ ok tt
        → (node_publish_volume H cfg second between).0 ≡ ok tt
        → result ≡ ok tt
        → (lookup first.volume_id e.holds ≡ none)
          × (mounts e.os first.target_path
              ≡ copy_binding H T cfg first ∷ without_top (mounts d.os first.target_path))
  second_target first second d same other apart fresh p q r =
      let between = (node_publish_volume H cfg first d).1 in
      let twice = (node_publish_volume H cfg second between).1 in
      (
        ap (λ h. lookup h (node_unpublish_volume H cfg (undo second) twice).1.holds) same
            ∙ (unpublish-holds H cfg (undo second) twice second.volume_id).0 r
            ∙ rw (text_beq_self second.volume_id) (
                released-HeldAt (pod_in second).uid second.target_path
                  (lookup second.volume_id twice.holds) ((publish-holds H cfg second between).0 q)),
        unpublished_elsewhere H T cfg (undo second) first.target_path twice other apart
            ∙ published_elsewhere H T cfg second first.target_path between other apart q
            ∙ publish-mounts H T cfg first d fresh p,
      )
