-- ===== src/Host/Laws.antt =====
-- What the driver relies on of the kernel's mount table: a list of mounts at every path, the one on
-- top first. mount(2) and umount2(2) describe these effects.
use per_node_csi_driver.Prelude.{
  ℕ, ◌≡◌, ◌≢◌, Bool, true, false, List, [], ◌∷◌, ◌++◌, Text, ◌==◌, text_eq,
}
use per_node_csi_driver.Prelude.{if◌then◌else◌}
use per_node_csi_driver.Prelude.Exec.{Result, ok, err}
use per_node_csi_driver.Text.{slash}
use per_node_csi_driver.Host.{Fault, Host}

-- One bind mount: what it shows, and whether it was remounted read-only.
pub record Binding : Type 0 where
  pub source : Text
  pub read_only : Bool

abbrev pub set_read_only : List Binding → List Binding
set_read_only [] = []
set_read_only (top ∷ others) = record top { read_only = true } ∷ others

abbrev pub without_top : List Binding → List Binding
without_top [] = []
without_top (top ∷ others) = others

-- The path lies below the directory.
abbrev pub IsBelow : Text → Text → Type 0
IsBelow directory path = (rest : Text) × (path ≡ directory ++ slash ∷ rest)

-- The error number that a call returned, or 0.
abbrev pub errno_of : Result Fault Unit → ℕ
errno_of (ok tt) = 0
errno_of (err fault) = fault.errno

pub record MountTable (H : Host) : Type 0 where
  pub mounts : H.State → Text → List Binding
  -- MS_BIND (4096) puts a mount on top at the target.
  pub bind_ok :
      (source target path : Text) (s : H.State)
      → (H.mount source target [] 4096 [] s).0 ≡ ok tt
      → mounts (H.mount source target [] 4096 [] s).1 path ≡ (
          if target == path
          then record { source = source; read_only = false } ∷ mounts s path
          else mounts s path)
  -- MS_BIND|MS_REMOUNT|MS_RDONLY (4129) changes the mount on top at the target.
  pub remount_ok :
      (source target path : Text) (s : H.State)
      → (H.mount source target [] 4129 [] s).0 ≡ ok tt
      → mounts (H.mount source target [] 4129 [] s).1 path
        ≡ (if target == path then set_read_only (mounts s path) else mounts s path)
  -- A mount call that fails changes no mount.
  pub mount_err :
      (source target path : Text) (flags : ℕ) (s : H.State)
      → (H.mount source target [] flags [] s).0 ≢ ok tt
      → mounts (H.mount source target [] flags [] s).1 path ≡ mounts s path
  -- MNT_DETACH (2) takes the mount on top away, and there was one.
  pub unmount_ok :
      (target : Text) (s : H.State)
      → (H.unmount target 2 s).0 ≡ ok tt
      → (mounts s target ≢ [])
        × (mounts (H.unmount target 2 s).1 target ≡ without_top (mounts s target))
  -- It takes the mounts below the target with it, and no other.
  pub unmount_elsewhere :
      (target path : Text) (s : H.State)
      → target ≢ path
      → ¬ IsBelow target path
      → mounts (H.unmount target 2 s).1 path ≡ mounts s path
  pub unmount_err :
      (target path : Text) (s : H.State)
      → (H.unmount target 2 s).0 ≢ ok tt
      → mounts (H.unmount target 2 s).1 path ≡ mounts s path
  -- EINVAL (22) and ENOENT (2) say that nothing is mounted at the target.
  pub unmount_einval :
      (target : Text) (s : H.State) → errno_of (H.unmount target 2 s).0 ≡ 22 → mounts s target ≡ []
  pub unmount_enoent :
      (target : Text) (s : H.State) → errno_of (H.unmount target 2 s).0 ≡ 2 → mounts s target ≡ []
  -- The calls on files change no mount.
  pub mkdir_all_keeps :
      (directory path : Text) (mode : ℕ) (s : H.State)
      → mounts (H.mkdir_all directory mode s).1 path ≡ mounts s path
  pub chmod_keeps :
      (name path : Text) (mode : ℕ) (s : H.State)
      → mounts (H.chmod name mode s).1 path ≡ mounts s path
  pub remove_keeps :
      (name path : Text) (s : H.State) → mounts (H.remove name s).1 path ≡ mounts s path
  pub write_file_keeps :
      (name content path : Text) (mode : ℕ) (s : H.State)
      → mounts (H.write_file name content mode s).1 path ≡ mounts s path
  pub remove_all_keeps :
      (name path : Text) (s : H.State) → mounts (H.remove_all name s).1 path ≡ mounts s path
