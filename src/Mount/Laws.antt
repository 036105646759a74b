-- ===== src/Mount/Laws.antt =====
-- What the mounts of mount.go leave in the mount table, on success and on failure.
use per_node_csi_driver.Prelude.{◌≡◌, ◌≢◌, Bool, true, false, [], ◌∷◌, arith, Text}
use per_node_csi_driver.Prelude.{◌==◌, text_eq, text_beq_iff, text_beq_self, if◌then◌else◌}
use per_node_csi_driver.Prelude.Exec.{ok, err}
use per_node_csi_driver.Host.{Fault, Host}
use per_node_csi_driver.Host.Laws.{MountTable, IsBelow, without_top}
use per_node_csi_driver.Mount.{bind, bind_read_write, bind_read_only, make_read_only, unbind}

module _ (H : Host) (T : MountTable H) (source target : Text) where
  open T use {mounts}

  -- A bind that succeeds puts one mount of the source on top at the target, read-only exactly if
  -- that was asked, and leaves the mounts at other paths as they were.
  pub bind-mounts :
      (read_only : Bool) (s : H.State) (path : Text)
      → (bind H source target read_only s).0 ≡ ok tt
      → mounts (bind H source target read_only s).1 path ≡ (
          if target == path
          then record { source = source; read_only = read_only } ∷ mounts s path
          else mounts s path)
  unfolding bind bind_read_write bind_read_only make_read_only
  bind-mounts false s path h = ground (arith, T.bind_ok source target path s)
  bind-mounts true s path h = ground (
    arith,
    T.bind_ok source target path s,
    T.remount_ok source target path (H.mount source target [] 4096 [] s).1,
  )

  -- A bind that fails leaves the mounts at the target as they were, and so those at every path that
  -- is not below it, provided that the kernel detaches a mount that is there: no bind stays
  -- writeable because its remount failed.
  pub bind-failed :
      (read_only : Bool) (s : H.State) (path : Text) {fault : Fault}
      → ((t : H.State) → mounts t target ≢ [] → (H.unmount target 2 t).0 ≡ ok tt)
      → ¬ IsBelow target path
      → (bind H source target read_only s).0 ≡ err fault
      → mounts (bind H source target read_only s).1 path ≡ mounts s path
  unfolding bind bind_read_write bind_read_only make_read_only
  bind-failed false s path detaches apart h = ground (arith, T.mount_err source target path 4096 s)
  bind-failed true s path detaches apart h =
      let bound = (H.mount source target [] 4096 [] s).1 in
      let kept = (H.mount source target [] 4129 [] bound).1 in
      ground (
        arith,
        T.mount_err source target path 4096 s,
        T.bind_ok source target path s,
        T.bind_ok source target target s,
        T.mount_err source target path 4129 bound,
        T.mount_err source target target 4129 bound,
        text_beq_self target,
        text_beq_iff target path,
        detaches kept,
        T.unmount_ok target kept,
        T.unmount_elsewhere target path kept,
      )

module _ (H : Host) (T : MountTable H) (target : Text) where
  open T use {mounts}

  -- `unbind` takes the mount on top away, or finds none, wherever it reports no error.
  pub unbind-mounts :
      (s : H.State)
      → (unbind H target s).0 ≡ ok tt
      → mounts (unbind H target s).1 target ≡ without_top (mounts s target)
  unfolding unbind
  unbind-mounts s h = ground (
    arith,
    T.unmount_ok target s,
    T.unmount_einval target s,
    T.unmount_enoent target s,
    T.unmount_err target target s,
  )
