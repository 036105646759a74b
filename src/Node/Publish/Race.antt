-- ===== src/Node/Publish/Race.antt =====
-- Two publishes of one handle at the same time. gRPC serves every call in a goroutine of its own, and
-- the lock is free between the reading of the holder and the recording of the hold.
use per_node_csi_driver.Prelude.{
  ◌≡◌, ◌≢◌, ap, ◌∙◌, none, some, ◌∷◌, arith, Text, text_eq, text_beq_iff,
}
use per_node_csi_driver.Prelude.Exec.{ok}
use per_node_csi_driver.Host.{Host}
use per_node_csi_driver.Host.Laws.{MountTable, IsBelow, without_top}
use per_node_csi_driver.Map.{lookup}
use per_node_csi_driver.Store.{copy_path, copy_mode, make_copy, hold_path}
use per_node_csi_driver.Mount.{unbind}
use per_node_csi_driver.Mount.Laws.{bind-mounts}
use per_node_csi_driver.Driver.{Driver, Settings}
use per_node_csi_driver.Holds.{keep_hold, report_volumes}
use per_node_csi_driver.Node.{PublishRequest, hold_for}
use per_node_csi_driver.Node.Publish.{mount, refuse, publish_mount, publish_held}
use per_node_csi_driver.Node.Publish.Outcome.{publish_mount-holds}
use per_node_csi_driver.Node.Publish.Mounted.{copy_binding, write_hold-mounts, publish_mount-mounts}

module _ (H : Host) (T : MountTable H) where
  open T use {mounts}

  pub unbind_elsewhere :
      (target path : Text) (s : H.State)
      → target ≢ path
      → ¬ IsBelow target path
      → mounts (unbind H target s).1 path ≡ mounts s path
  unfolding unbind
  unbind_elsewhere target path s other apart =
      ground (arith, T.unmount_elsewhere target path s other apart)

  mount_elsewhere :
      (cfg : Settings) (r : PublishRequest) (path : Text) (s : H.State)
      → r.target_path ≢ path
      → ¬ IsBelow r.target_path path
      → (mount H cfg r s).0 ≡ ok tt
      → mounts (mount H cfg r s).1 path ≡ mounts s path
  unfolding mount make_copy
  mount_elsewhere cfg r path s other apart h =
      let made = (H.mkdir_all (copy_path cfg.root r.volume_id) copy_mode s).1 in
      let open_to_all = (H.chmod (copy_path cfg.root r.volume_id) copy_mode made).1 in
      let there = (H.mkdir_all r.target_path 0o755 open_to_all).1 in
      let clear = (unbind H r.target_path there).1 in
      ground (
        arith,
        T.mkdir_all_keeps (copy_path cfg.root r.volume_id) path copy_mode s,
        T.chmod_keeps (copy_path cfg.root r.volume_id) path copy_mode made,
        T.mkdir_all_keeps r.target_path path 0o755 open_to_all,
        unbind_elsewhere r.target_path path there other apart,
        bind-mounts H T (copy_path cfg.root r.volume_id) r.target_path r.read_only clear path,
        text_beq_iff r.target_path path,
      )

  pub publish_mount_elsewhere :
      (cfg : Settings) (r : PublishRequest) (path : Text) (d : Driver H)
      → r.target_path ≢ path
      → ¬ IsBelow r.target_path path
      → (publish_mount H cfg r d).0 ≡ ok tt
      → mounts (publish_mount H cfg r d).1.os path ≡ mounts d.os path
  unfolding publish_mount refuse keep_hold report_volumes
  publish_mount_elsewhere cfg r path d other apart h = ground (
    arith,
    mount_elsewhere cfg r path d.os other apart,
    write_hold-mounts H T (hold_path cfg.root r.volume_id) path (hold_for r) (mount H cfg r d.os).1,
  )

module _ (H : Host) (T : MountTable H) (cfg : Settings) (first second : PublishRequest) where
  open T use {mounts}

  -- Two publishes, of which the second one read that nobody holds the handle before the first one
  -- recorded its hold, can both succeed. Where they do, and the second target is neither the first one
  -- nor above it, the copy is then mounted at both targets, whichever pods asked, and the hold of
  -- the second pod has replaced that of the first.
  pub publish_race :
      (d : Driver H)
      → first.volume_id ≡ second.volume_id
      → second.target_path ≢ first.target_path
      → ¬ IsBelow second.target_path first.target_path
      → (publish_held H cfg first none d).0 ≡ ok tt
      → (publish_held H cfg second none (publish_held H cfg first none d).1).0 ≡ ok tt
      → let e = (publish_held H cfg second none (publish_held H cfg first none d).1).1 in
        (mounts e.os first.target_path
          ≡ copy_binding H T cfg first ∷ without_top (mounts d.os first.target_path))
        × (mounts e.os second.target_path
            ≡ copy_binding H T cfg second
              ∷ without_top (mounts (publish_held H cfg first none d).1.os second.target_path))
        × (lookup first.volume_id e.holds ≡ some (hold_for second))
  unfolding publish_held
  publish_race d same other apart p q =
      let between = (publish_mount H cfg first d).1 in
      (
        publish_mount_elsewhere H T cfg second first.target_path between other apart q
            ∙ publish_mount-mounts H T cfg first d p,
        publish_mount-mounts H T cfg second between q,
        ap (λ handle. lookup handle (publish_mount H cfg second between).1.holds) same
            ∙ (publish_mount-holds H cfg second between).0 q,
      )
