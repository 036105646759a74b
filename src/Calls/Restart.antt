-- ===== src/Calls/Restart.antt =====
-- What a driver holds after a restart on a machine that it leaves as it is.
use per_node_csi_driver.Prelude.{◌≡◌, refl, ◌≢◌, ◌↔◌, true, some, List, [], ◌∷◌, arith}
use per_node_csi_driver.Prelude.{Text, All}
use per_node_csi_driver.Prelude.Exec.{Result, ok, err}
use per_node_csi_driver.Handle.Check.{IsElement}
use per_node_csi_driver.Host.{Host, Hold, Fault}
use per_node_csi_driver.Host.Files.{FileTable}
use per_node_csi_driver.Map.{lookup}
use per_node_csi_driver.Path.{join_path, directory_of}
use per_node_csi_driver.Store.{hold_path, holds_directory}
use per_node_csi_driver.Driver.{Settings}
use per_node_csi_driver.Holds.MountInfo.{mounted_in}
use per_node_csi_driver.Holds.MountInfo.RoundTrip.{Entry, IsEntry}
use per_node_csi_driver.Holds.MountInfo.Table.{table_of, IsPoint, mounted_in-table_of}
use per_node_csi_driver.Holds.{mounted_now, read_hold, write_content, report_volumes, resume}
use per_node_csi_driver.Holds.Resume.{Once, recorded, resume_entries-lookup}
use per_node_csi_driver.Calls.{new_node, start}

module _ (H : Host) (F : FileTable H) (cfg : Settings) where
  -- A driver that starts holds a handle exactly if the file of its hold can be read and the mount
  -- table still has the target that the file names, and then it holds what the file says. The
  -- directory of the holds lists names of entries, the handle once, and no file of a hold is the
  -- mount table.
  pub start-restores :
      (s : H.State) (entries : List Text) (handle : Text)
      → H.read_dir (join_path (cfg.root ∷ holds_directory ∷ [])) s ≡ ok entries
      → IsElement handle
      → All IsElement entries
      → All (λ other. hold_path cfg.root other ≢ cfg.mountinfo) entries
      → Once handle entries
      → lookup handle (start H cfg s).holds ≡ recorded H cfg handle s
  unfolding start resume report_volumes new_node lookup
  start-restores s entries handle listed e all apart once =
      rw listed (resume_entries-lookup H F cfg entries handle _ e all apart once refl)

  recorded-written :
      (s : H.State) (handle : Text) (points : List Entry)
      → H.read_file cfg.mountinfo s ≡ ok (table_of points)
      → All IsEntry points
      → (taken : Hold)
      → (recorded H cfg handle s ≡ some taken) ↔ (
          (content : Text) × (H.read_file (hold_path cfg.root handle) s ≡ ok content)
          × (H.unmarshal content ≡ ok taken)
          × IsPoint taken.target points)
  unfolding read_hold mounted_now
  recorded-written s handle points table written taken =
      (λ h. found _ refl h, λ (content, p, u, point). given content p u point)
    where
      mounted : (mounted_in (table_of points) taken.target ≡ true) ↔ IsPoint taken.target points
      mounted = mounted_in-table_of points taken.target written

      found :
          (file : Result Fault Text)
          → H.read_file (hold_path cfg.root handle) s ≡ file
          → recorded H cfg handle s ≡ some taken
          → (content : Text) × (H.read_file (hold_path cfg.root handle) s ≡ ok content)
            × (H.unmarshal content ≡ ok taken)
            × IsPoint taken.target points
      found (err fault) p h = absurd (ground arith)
      found (ok content) p h = (content, p, ground arith, mounted.0 (ground arith))

      given :
          (content : Text)
          → H.read_file (hold_path cfg.root handle) s ≡ ok content
          → H.unmarshal content ≡ ok taken
          → IsPoint taken.target points
          → recorded H cfg handle s ≡ some taken
      given content p u point = ground (arith, mounted.1 point)

  -- On a machine whose mount table reads as lines that the kernel writes, a driver that starts holds
  -- a handle exactly if the file of its hold can be read, its content says who holds the handle and
  -- at which target, and one of the lines has that target as its mount point. The directory of the
  -- holds lists names of entries, the handle once, and no file of a hold is the mount table.
  pub start-holds :
      (s : H.State) (entries : List Text) (handle : Text) (points : List Entry) (taken : Hold)
      → H.read_dir (join_path (cfg.root ∷ holds_directory ∷ [])) s ≡ ok entries
      → IsElement handle
      → All IsElement entries
      → All (λ other. hold_path cfg.root other ≢ cfg.mountinfo) entries
      → Once handle entries
      → H.read_file cfg.mountinfo s ≡ ok (table_of points)
      → All IsEntry points
      → (lookup handle (start H cfg s).holds ≡ some taken) ↔ (
          (content : Text) × (H.read_file (hold_path cfg.root handle) s ≡ ok content)
          × (H.unmarshal content ≡ ok taken)
          × IsPoint taken.target points)
  start-holds s entries handle points taken listed e all apart once table written =
      rw (start-restores s entries handle listed e all apart once)
        (recorded-written s handle points table written taken)

  pub read_hold-write_content :
      (path : Text) (taken : Hold) (written : Result Fault Text) (s : H.State)
      → (write_content H path written s).0 ≡ ok tt
      → ((text : Text) → written ≡ ok text → H.unmarshal text ≡ ok taken)
      → read_hold H path (write_content H path written s).1 ≡ ok taken
  unfolding write_content read_hold
  read_hold-write_content path taken (err fault) s h json = cc
  read_hold-write_content path taken (ok text) s h json = ground (
    arith,
    json text refl,
    F.write_file_content path text 0o600 (H.mkdir_all (directory_of path) 0o755 s).1,
  )
