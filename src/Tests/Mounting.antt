-- ===== src/Tests/Mounting.antt =====
-- A kernel that refuses every remount: the bind that it refuses does not stay.
use per_node_csi_driver.Prelude.{
  ℕ, ◌≡◌, refl, true, arith, Text, codes, ◌==◌, ◌++◌, nat_eq, text_eq, text_beq_iff,
}
use per_node_csi_driver.Prelude.{if◌then◌else◌, text_beq}
use per_node_csi_driver.Prelude.Exec.{err, Exec}
use per_node_csi_driver.Host.{Host, Fault}
use per_node_csi_driver.Host.Laws.{MountTable, IsBelow}
use per_node_csi_driver.Host.Memory.{Machine, memory, not_mounted, mount, remove_all}
use per_node_csi_driver.Host.Memory.Lawful.{
  unmount_ok, unmount_elsewhere, unmount_err, unmount_einval, unmount_present,
}
use per_node_csi_driver.Mount.{wrap, bind, bind_read_only, make_read_only, remount_failed}
use per_node_csi_driver.Mount.Laws.{bind-failed}
use per_node_csi_driver.Tests.Data.{idle, db, target}

abbrev mount_once : Text → Text → ℕ → Exec Machine Fault Unit
mount_once source name flags s =
    if flags == 4096 then mount source name flags s else (err not_mounted, s)

abbrev strict : Host
strict = record memory { mount = λ source name _ flags _. mount_once source name flags }

unfoldable strict-MountTable : MountTable strict
unfolding remove_all
strict-MountTable = record {
  mounts = λ s. s.mounts;
  bind_ok = λ source name path s h. ground (arith, text_beq_iff name path);
  remount_ok = λ source name path s h. cc;
  mount_err = λ source name path flags s h. ground arith;
  unmount_ok = λ name s h. unmount_ok (s.mounts name) name s h;
  unmount_elsewhere =
      λ name path s other apart. unmount_elsewhere (s.mounts name) name path s other;
  unmount_err = λ name path s h. unmount_err (s.mounts name) name path s h;
  unmount_einval = λ name s h. unmount_einval (s.mounts name) name s 21 h;
  unmount_enoent = λ name s h. unmount_einval (s.mounts name) name s 1 h;
  mkdir_all_keeps = λ directory path mode s. refl;
  chmod_keeps = λ name path mode s. refl;
  remove_keeps = λ name path s. ground arith;
  write_file_keeps = λ name content path mode s. refl;
  remove_all_keeps = λ name path s. refl;
}

abbrev refused : Fault
refused = record {
  errno = 22;
  message = remount_failed target ++ (codes ": " ++ codes "invalid argument");
}

remount_refused : (bind strict db target true idle.os).0 ≡ err refused
unfolding bind bind_read_only make_read_only wrap text_beq
remount_refused = refl

not-IsBelow_itself : ¬ IsBelow target target
not-IsBelow_itself (rest, e) = cc

bind-failed_example :
    strict-MountTable.mounts (bind strict db target true idle.os).1 target
    ≡ strict-MountTable.mounts idle.os target
unfolding strict-MountTable
bind-failed_example =
    bind-failed strict strict-MountTable db target true idle.os target
      (λ t present. unmount_present (t.mounts target) target t present) not-IsBelow_itself
      remount_refused
