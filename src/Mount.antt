-- ===== src/Mount.antt =====
-- mount.go: the bind mounts at the targets, and the unmount that takes one away.
pub mod Laws
use Prim.Native.Nat.{bit_or}
use per_node_csi_driver.Prelude.{ℕ, Bool, ◌||◌, [], ◌∷◌, ◌++◌, Text, codes, ◌==◌, nat_eq}
use per_node_csi_driver.Prelude.{if◌then◌else◌}
use per_node_csi_driver.Prelude.Exec.{Exec, pure, raise, handle}
use per_node_csi_driver.Host.{Fault, Host}

-- The numbers of golang.org/x/sys/unix on Linux.
abbrev pub ms_rdonly : ℕ
ms_rdonly = 1

abbrev pub ms_remount : ℕ
ms_remount = 32

abbrev pub ms_bind : ℕ
ms_bind = 4096

abbrev pub mnt_detach : ℕ
mnt_detach = 2

abbrev pub enoent : ℕ
enoent = 2

abbrev pub einval : ℕ
einval = 22

-- The flags of the second step of a read-only bind.
abbrev pub remount_flags : ℕ
remount_flags = bit_or (bit_or ms_bind ms_remount) ms_rdonly

-- `fmt.Errorf("…: %w", err)`: the error number is that of the error inside.
unfoldable pub wrap : Text → Fault → Fault
wrap prefix fault = record fault { message = prefix ++ (codes ": " ++ fault.message) }

unfoldable pub bind_failed : Text → Text → Text
bind_failed source target = codes "bind " ++ (source ++ (codes " onto " ++ target))

unfoldable pub remount_failed : Text → Text
remount_failed target = codes "remount " ++ (target ++ codes " read-only")

unfoldable pub unmount_failed : Text → Text
unmount_failed target = codes "unmount " ++ target

-- `err == nil || errors.Is(err, EINVAL) || errors.Is(err, ENOENT)`, of an error.
abbrev pub is_absent : Fault → Bool
is_absent fault = fault.errno == einval || fault.errno == enoent

module _ (H : Host) where
  -- `bindReadWrite`
  unfoldable pub bind_read_write : Text → Text → Exec H.State Fault Unit
  bind_read_write source target =
      handle (H.mount source target [] ms_bind []) pure
        (λ fault. raise (wrap (bind_failed source target) fault))

  -- The remount of `bindReadOnly`, with the unmount that follows where it fails. The error of
  -- that unmount is dropped.
  unfoldable pub make_read_only : Text → Text → Exec H.State Fault Unit
  make_read_only source target = handle (H.mount source target [] remount_flags []) pure (λ fault.
      let failed = raise (wrap (remount_failed target) fault) in
      handle (H.unmount target mnt_detach) (λ _. failed) (λ _. failed))

  -- `bindReadOnly`
  unfoldable pub bind_read_only : Text → Text → Exec H.State Fault Unit
  bind_read_only source target =
      handle (H.mount source target [] ms_bind []) (λ _. make_read_only source target)
        (λ fault. raise (wrap (bind_failed source target) fault))

  -- `bind`
  unfoldable pub bind : Text → Text → Bool → Exec H.State Fault Unit
  bind source target read_only =
      if read_only then bind_read_only source target else bind_read_write source target

  -- `unbind`
  unfoldable pub unbind : Text → Exec H.State Fault Unit
  unbind target =
      handle (H.unmount target mnt_detach) pure
        (λ fault. if is_absent fault then pure tt else raise (wrap (unmount_failed target) fault))
