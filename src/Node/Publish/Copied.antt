-- ===== src/Node/Publish/Copied.antt =====
-- What a publish leaves of the copy of its handle.
use per_node_csi_driver.Prelude.{◌≡◌, ◌≢◌, Bool, true, false, [], arith, Text}
use per_node_csi_driver.Prelude.Exec.{Result, ok, err}
use per_node_csi_driver.Host.{Fault, Host}
use per_node_csi_driver.Host.Laws.{IsBelow}
use per_node_csi_driver.Host.Files.{FileTable}
use per_node_csi_driver.Path.{directory_of}
use per_node_csi_driver.Store.{copy_path, hold_path, copy_mode, make_copy}
use per_node_csi_driver.Mount.{bind, bind_read_write, bind_read_only, make_read_only, unbind}
use per_node_csi_driver.Driver.{Driver, Settings}
use per_node_csi_driver.Holds.{keep_hold, write_content, write_hold, report_volumes}
use per_node_csi_driver.Node.{PublishRequest, hold_for}
use per_node_csi_driver.Node.Publish.{mount, publish_mount, refuse}

module _ (H : Host) (F : FileTable H) where
  open F use {is_there}

  unbind-is_there :
      (target path : Text) (s : H.State)
      → ¬ IsBelow target path
      → is_there (unbind H target s).1 path ≡ is_there s path
  unfolding unbind
  unbind-is_there target path s above = ground (arith, F.unmount_elsewhere target path s above)

  bind-is_there :
      (source target path : Text) (read_only : Bool) (s : H.State)
      → target ≢ path
      → ¬ IsBelow target path
      → is_there (bind H source target read_only s).1 path ≡ is_there s path
  unfolding bind bind_read_write bind_read_only make_read_only
  bind-is_there source target path false s other above =
      ground (arith, F.mount_elsewhere source target path 4096 s other above)
  bind-is_there source target path true s other above =
      let bound = (H.mount source target [] 4096 [] s).1 in
      let kept = (H.mount source target [] 4129 [] bound).1 in
      ground (
        arith,
        F.mount_elsewhere source target path 4096 s other above,
        F.mount_elsewhere source target path 4129 bound other above,
        F.unmount_elsewhere target path kept above,
      )

  write_content-is_there :
      (name path : Text) (content : Result Fault Text) (s : H.State)
      → is_there s path ≡ true
      → is_there (write_content H name content s).1 path ≡ true
  unfolding write_content
  write_content-is_there name path (err fault) s there = there
  write_content-is_there name path (ok content) s there = ground (
    arith,
    F.mkdir_all_removes_nothing (directory_of name) path 0o755 s there,
    F.write_file_removes_nothing name content path 0o600
        (H.mkdir_all (directory_of name) 0o755 s).1,
  )

module _ (H : Host) (F : FileTable H) (cfg : Settings) (r : PublishRequest)
    (other : r.target_path ≢ copy_path cfg.root r.volume_id)
    (above : ¬ IsBelow r.target_path (copy_path cfg.root r.volume_id)) where
  open F use {is_there}

  mount-copy :
      (s : H.State)
      → (mount H cfg r s).0 ≡ ok tt
      → is_there (mount H cfg r s).1 (copy_path cfg.root r.volume_id) ≡ true
  unfolding mount make_copy
  mount-copy s h =
      let copy = copy_path cfg.root r.volume_id in
      let made = (H.mkdir_all copy copy_mode s).1 in
      let open_to_all = (H.chmod copy copy_mode made).1 in
      let there = (H.mkdir_all r.target_path 0o755 open_to_all).1 in
      let clear = (unbind H r.target_path there).1 in
      ground (
        arith,
        F.mkdir_all_ok copy copy_mode s,
        F.chmod_removes_nothing copy copy copy_mode made,
        F.mkdir_all_removes_nothing r.target_path copy 0o755 open_to_all,
        unbind-is_there H F r.target_path copy there above,
        bind-is_there H F copy r.target_path copy r.read_only clear other above,
      )

  -- A mount that succeeds leaves the copy there, and so does the record of the hold.
  pub publish_mount-copy :
      (d : Driver H)
      → (publish_mount H cfg r d).0 ≡ ok tt
      → is_there (publish_mount H cfg r d).1.os (copy_path cfg.root r.volume_id) ≡ true
  unfolding publish_mount refuse keep_hold report_volumes write_hold
  publish_mount-copy d h = ground (
    arith,
    mount-copy d.os,
    write_content-is_there H F (hold_path cfg.root r.volume_id) (copy_path cfg.root r.volume_id)
        (H.marshal (hold_for r)) (mount H cfg r d.os).1,
  )
