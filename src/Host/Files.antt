-- ===== src/Host/Files.antt =====
-- What the driver relies on of the file system: which paths exist, and which of them the calls that
-- remove can change. unlink(2), rmdir(2), umount2(2) and os.RemoveAll describe these effects.
use per_node_csi_driver.Prelude.{ℕ, ◌≡◌, ◌≢◌, Bool, true, false, [], Text}
use per_node_csi_driver.Prelude.Exec.{ok}
use per_node_csi_driver.Host.{Host}
use per_node_csi_driver.Host.Laws.{IsBelow, errno_of}

pub record FileTable (H : Host) : Type 0 where
  pub is_there : H.State → Text → Bool
  -- Removing one name leaves every other path.
  pub remove_elsewhere :
      (name path : Text) (s : H.State)
      → name ≢ path
      → is_there (H.remove name s).1 path ≡ is_there s path
  -- A name that was removed, or was not there, is not there.
  pub remove_ok :
      (name : Text) (s : H.State)
      → (H.remove name s).0 ≡ ok tt
      → is_there (H.remove name s).1 name ≡ false
  pub remove_enoent :
      (name : Text) (s : H.State)
      → errno_of (H.remove name s).0 ≡ 2
      → is_there (H.remove name s).1 name ≡ false
  pub remove_keeps_content :
      (name path : Text) (s : H.State)
      → name ≢ path
      → H.read_file path (H.remove name s).1 ≡ H.read_file path s
  -- What was written is read back.
  pub write_file_content :
      (name content : Text) (mode : ℕ) (s : H.State)
      → (H.write_file name content mode s).0 ≡ ok tt
      → H.read_file name (H.write_file name content mode s).1 ≡ ok content
  -- An unmount uncovers what lies below its target, and leaves every other path.
  pub unmount_elsewhere :
      (target path : Text) (s : H.State)
      → ¬ IsBelow target path
      → is_there (H.unmount target 2 s).1 path ≡ is_there s path
  -- Removing a tree leaves what is neither its root nor below it, creates nothing, and leaves no
  -- root where it succeeds.
  pub remove_all_elsewhere :
      (name path : Text) (s : H.State)
      → name ≢ path
      → ¬ IsBelow name path
      → is_there (H.remove_all name s).1 path ≡ is_there s path
  pub remove_all_creates_nothing :
      (name path : Text) (s : H.State)
      → is_there s path ≡ false
      → is_there (H.remove_all name s).1 path ≡ false
  pub remove_all_ok :
      (name : Text) (s : H.State)
      → (H.remove_all name s).0 ≡ ok tt
      → is_there (H.remove_all name s).1 name ≡ false
  -- A directory that was made is there.
  pub mkdir_all_ok :
      (directory : Text) (mode : ℕ) (s : H.State)
      → (H.mkdir_all directory mode s).0 ≡ ok tt
      → is_there (H.mkdir_all directory mode s).1 directory ≡ true
  -- The calls that make or change a file leave what is there, and so does a mount, but for what it
  -- covers.
  pub mkdir_all_removes_nothing :
      (directory path : Text) (mode : ℕ) (s : H.State)
      → is_there s path ≡ true
      → is_there (H.mkdir_all directory mode s).1 path ≡ true
  pub chmod_removes_nothing :
      (name path : Text) (mode : ℕ) (s : H.State)
      → is_there s path ≡ true
      → is_there (H.chmod name mode s).1 path ≡ true
  pub write_file_removes_nothing :
      (name content path : Text) (mode : ℕ) (s : H.State)
      → is_there s path ≡ true
      → is_there (H.write_file name content mode s).1 path ≡ true
  pub mount_elsewhere :
      (source target path : Text) (flags : ℕ) (s : H.State)
      → target ≢ path
      → ¬ IsBelow target path
      → is_there (H.mount source target [] flags [] s).1 path ≡ is_there s path
  -- A temporary file gets a name that was not there, and nothing goes for it.
  pub create_temp_new :
      (directory pattern name : Text) (s : H.State)
      → (H.create_temp directory pattern s).0 ≡ ok name
      → is_there s name ≡ false
  pub create_temp_removes_nothing :
      (directory pattern path : Text) (s : H.State)
      → is_there s path ≡ true
      → is_there (H.create_temp directory pattern s).1 path ≡ true
