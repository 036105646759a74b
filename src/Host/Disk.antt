-- ===== src/Host/Disk.antt =====
-- What the driver relies on of a file that is kept on the disk, of the list of a directory, and of
-- the file in which the kernel publishes its mount table. proc_pid_mountinfo(5) describes that one.
use per_node_csi_driver.Prelude.{ℕ, ◌≡◌, ◌≢◌, List, [], ◌∷◌, ◌++◌, Text, All}
use per_node_csi_driver.Text.{slash}
use per_node_csi_driver.Handle.Check.{IsElement}
use per_node_csi_driver.Holds.Resume.{Once}
use per_node_csi_driver.Prelude.Exec.{ok}
use per_node_csi_driver.Host.{Host}
use per_node_csi_driver.Host.Laws.{MountTable, IsBelow}
use per_node_csi_driver.Holds.MountInfo.RoundTrip.{Entry, IsEntry}
use per_node_csi_driver.Holds.MountInfo.Table.{table_of, IsPoint}

-- What is in the file at the path stays readable, and the same, when the kernel is called for other
-- paths.
pub record DiskFile (H : Host) (path : Text) : Type 0 where
  pub mkdir_all_keeps :
      (directory content : Text) (mode : ℕ) (s : H.State)
      → H.read_file path s ≡ ok content
      → H.read_file path (H.mkdir_all directory mode s).1 ≡ ok content
  pub chmod_keeps :
      (name content : Text) (mode : ℕ) (s : H.State)
      → name ≢ path
      → ¬ IsBelow name path
      → H.read_file path s ≡ ok content
      → H.read_file path (H.chmod name mode s).1 ≡ ok content
  pub write_file_keeps :
      (name text content : Text) (mode : ℕ) (s : H.State)
      → name ≢ path
      → H.read_file path s ≡ ok content
      → H.read_file path (H.write_file name text mode s).1 ≡ ok content
  pub mount_keeps :
      (source target content : Text) (flags : ℕ) (s : H.State)
      → target ≢ path
      → ¬ IsBelow target path
      → H.read_file path s ≡ ok content
      → H.read_file path (H.mount source target [] flags [] s).1 ≡ ok content
  pub unmount_keeps :
      (target content : Text) (s : H.State)
      → target ≢ path
      → ¬ IsBelow target path
      → H.read_file path s ≡ ok content
      → H.read_file path (H.unmount target 2 s).1 ≡ ok content
  pub remove_all_keeps :
      (name content : Text) (s : H.State)
      → name ≢ path
      → ¬ IsBelow name path
      → H.read_file path s ≡ ok content
      → H.read_file path (H.remove_all name s).1 ≡ ok content

-- The file lists what is mounted at the path: a line for every mount, as the kernel writes it.
pub record PublishedMounts (H : Host) (T : MountTable H) (table path : Text) : Type 0 where
  pub entries : H.State → List Entry
  pub entries_written : (s : H.State) → All IsEntry (entries s)
  pub published : (s : H.State) → H.read_file table s ≡ ok (table_of (entries s))
  pub has_point : (s : H.State) → T.mounts s path ≢ [] → IsPoint path (entries s)

-- A directory with a file of the name that can be read is listed: names of entries, and the name
-- once.
pub record ListedDirectory (H : Host) (directory name : Text) : Type 0 where
  pub lists :
      (content : Text) (s : H.State)
      → H.read_file (directory ++ slash ∷ name) s ≡ ok content
      → (entries : List Text) × (H.read_dir directory s ≡ ok entries)
        × All IsElement entries
        × Once name entries
