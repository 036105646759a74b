-- ===== src/Node/Publish/Mounted.antt =====
-- What a publish leaves in the mount table.
use per_node_csi_driver.Prelude.{◌≡◌, refl, Option, none, some, ◌∷◌, arith, Text}
use per_node_csi_driver.Prelude.{text_beq_iff, text_beq_self}
use per_node_csi_driver.Prelude.Exec.{Result, ok, err}
use per_node_csi_driver.Host.{Fault, Host, Hold}
use per_node_csi_driver.Host.Laws.{Binding, MountTable, without_top}
use per_node_csi_driver.Map.{lookup}
use per_node_csi_driver.Store.{copy_path, hold_path, copy_mode, make_copy}
use per_node_csi_driver.Path.{directory_of}
use per_node_csi_driver.Mount.{unbind}
use per_node_csi_driver.Mount.Laws.{bind-mounts, unbind-mounts}
use per_node_csi_driver.Driver.{Driver, Settings}
use per_node_csi_driver.Holds.{keep_hold, write_content, write_hold, report_volumes}
use per_node_csi_driver.Node.{PublishRequest, pod_in, hold_for}
use per_node_csi_driver.Node.Publish.{
  mount, refuse, publish_mount, publish_held, node_publish_volume,
}
use per_node_csi_driver.Node.Publish.Outcome.{HeldAt}

module _ (H : Host) (T : MountTable H) where
  open T use {mounts}

  write_content-mounts :
      (name path : Text) (content : Result Fault Text) (s : H.State)
      → mounts (write_content H name content s).1 path ≡ mounts s path
  unfolding write_content
  write_content-mounts name path (err fault) s = refl
  write_content-mounts name path (ok content) s = ground (
    arith,
    T.mkdir_all_keeps (directory_of name) path 0o755 s,
    T.write_file_keeps name content path 0o600 (H.mkdir_all (directory_of name) 0o755 s).1,
  )

  -- Recording a hold changes no mount.
  pub write_hold-mounts :
      (name path : Text) (taken : Hold) (s : H.State)
      → mounts (write_hold H name taken s).1 path ≡ mounts s path
  unfolding write_hold
  write_hold-mounts name path taken s = write_content-mounts name path (H.marshal taken) s

module _ (H : Host) (T : MountTable H) (cfg : Settings) (r : PublishRequest) where
  open T use {mounts}

  -- The copy of the handle, read-only if the request says so.
  abbrev pub copy_binding : Binding
  copy_binding = record { source = copy_path cfg.root r.volume_id; read_only = r.read_only }

  mount-mounts :
      (s : H.State)
      → (mount H cfg r s).0 ≡ ok tt
      → mounts (mount H cfg r s).1 r.target_path
        ≡ copy_binding ∷ without_top (mounts s r.target_path)
  unfolding mount make_copy
  mount-mounts s h =
      let made = (H.mkdir_all (copy_path cfg.root r.volume_id) copy_mode s).1 in
      let open_to_all = (H.chmod (copy_path cfg.root r.volume_id) copy_mode made).1 in
      let there = (H.mkdir_all r.target_path 0o755 open_to_all).1 in
      let clear = (unbind H r.target_path there).1 in
      ground (
        arith,
        T.mkdir_all_keeps (copy_path cfg.root r.volume_id) r.target_path copy_mode s,
        T.chmod_keeps (copy_path cfg.root r.volume_id) r.target_path copy_mode made,
        T.mkdir_all_keeps r.target_path r.target_path 0o755 open_to_all,
        unbind-mounts H T r.target_path there,
        bind-mounts H T (copy_path cfg.root r.volume_id) r.target_path r.read_only clear
            r.target_path,
        text_beq_self r.target_path,
      )

  -- The pod holds the handle at this target already, so there is nothing to mount.
  abbrev pub IsPublished : Driver H → Type 0
  IsPublished d = HeldAt (pod_in r).uid r.target_path (lookup r.volume_id d.holds)

  pub publish_mount-mounts :
      (d : Driver H)
      → (publish_mount H cfg r d).0 ≡ ok tt
      → mounts (publish_mount H cfg r d).1.os r.target_path
        ≡ copy_binding ∷ without_top (mounts d.os r.target_path)
  unfolding publish_mount refuse keep_hold report_volumes
  publish_mount-mounts d h = ground (
    arith,
    mount-mounts d.os,
    write_hold-mounts H T (hold_path cfg.root r.volume_id) r.target_path (hold_for r)
        (mount H cfg r d.os).1,
  )

  publish_held-mounts :
      (d : Driver H) (standing : Option Hold)
      → ¬ HeldAt (pod_in r).uid r.target_path standing
      → (publish_held H cfg r standing d).0 ≡ ok tt
      → mounts (publish_held H cfg r standing d).1.os r.target_path
        ≡ copy_binding ∷ without_top (mounts d.os r.target_path)
  unfolding publish_held refuse
  publish_held-mounts d none fresh h = ground (arith, publish_mount-mounts d)
  publish_held-mounts d (some s) fresh h = ground (
    arith,
    publish_mount-mounts d,
    text_beq_iff s.pod_uid (pod_in r).uid,
    text_beq_iff s.target r.target_path,
  )

  -- After a publish that succeeds, and that was not published already, the mount on top at the
  -- target is the copy of the handle, read-only exactly if the request says so. It has taken the
  -- place of the mount that was on top before, so that repeated publishes do not pile up.
  pub publish-mounts :
      (d : Driver H)
      → ¬ IsPublished d
      → (node_publish_volume H cfg r d).0 ≡ ok tt
      → mounts (node_publish_volume H cfg r d).1.os r.target_path
        ≡ copy_binding ∷ without_top (mounts d.os r.target_path)
  unfolding node_publish_volume refuse
  publish-mounts d fresh h =
      ground (arith, publish_held-mounts d (lookup r.volume_id d.holds) fresh)
