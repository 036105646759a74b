-- ===== src/Holds.antt =====
-- holds.go: which pod holds which copy, in memory and on the disk.
pub mod MountInfo
pub mod Resume
use per_node_csi_driver.Prelude.{
  ℕ, Bool, true, false, not, Option, some, List, [], ◌∷◌, Text, map, length,
}
use per_node_csi_driver.Prelude.{if◌then◌else◌}
use per_node_csi_driver.Prelude.Exec.{Result, ok, err, Exec, raise, ◌>>=◌, ◌>>◌}
use per_node_csi_driver.Host.{Fault, Host, Hold}
use per_node_csi_driver.Map.{Map, lookup, insert, erase}
use per_node_csi_driver.Metrics.{set_volumes}
use per_node_csi_driver.Path.{join_path, directory_of}
use per_node_csi_driver.Store.{hold_path, holds_directory}
use per_node_csi_driver.Driver.{Driver, Settings, try_host, on_readings}
use MountInfo.{mounted_in}

module _ {H : Host} where
  -- `holder`
  abbrev pub holder : Text → Driver H → Option Hold
  holder handle d = lookup handle d.holds

  -- `heldHandles`
  unfoldable pub held_handles : Driver H → Map Bool
  held_handles d = map (λ (handle, _). (handle, true)) d.holds

  -- `reportVolumes`
  unfoldable pub report_volumes : Driver H → Driver H
  report_volumes d = on_readings (set_volumes (length d.holds)) d

module _ (H : Host) where
  unfoldable pub write_content : Text → Result Fault Text → Exec H.State Fault Unit
  write_content path (err fault) = raise fault
  write_content path (ok content) = do
    H.mkdir_all (directory_of path) 0o755
    H.write_file path content 0o600

  -- The three steps in which `keepHold` writes its file.
  unfoldable pub write_hold : Text → Hold → Exec H.State Fault Unit
  write_hold path taken = write_content path (H.marshal taken)

  decode : Result Fault Text → Result Fault Hold
  decode (err fault) = err fault
  decode (ok content) = H.unmarshal content

  -- `readHold`
  unfoldable pub read_hold : Text → H.State → Result Fault Hold
  unfolding decode
  read_hold path s = decode (H.read_file path s)

  look : Text → Result Fault Text → Bool
  look path (err fault) = false
  look path (ok content) = mounted_in content path

  -- `mountedNow`
  unfoldable pub mounted_now : Text → Text → H.State → Bool
  unfolding look
  mounted_now table path s = look path (H.read_file table s)

module _ (H : Host) (cfg : Settings) where
  -- `keepHold`
  unfoldable pub keep_hold : Text → Hold → Driver H → Driver H
  keep_hold handle taken d =
      try_host (write_hold H (hold_path cfg.root handle) taken)
        (report_volumes (record d { holds = insert handle taken d.holds }))

  -- `dropHold`
  unfoldable pub drop_hold : Text → Driver H → Driver H
  drop_hold handle d =
      try_host (H.remove (hold_path cfg.root handle))
        (report_volumes (record d { holds = erase handle d.holds }))

  -- What `resume` does of one file, with the hold it read.
  unfoldable pub resume_hold : Text → Result Fault Hold → Driver H → Driver H
  resume_hold handle (err fault) d = drop_hold handle d
  resume_hold handle (ok taken) d =
      if not (mounted_now H cfg.mountinfo taken.target d.os)
      then drop_hold handle d
      else record d { holds = insert handle taken d.holds }

  unfoldable pub resume_entries : List Text → Driver H → Driver H
  resume_entries [] d = d
  resume_entries (handle ∷ entries) d =
      resume_entries entries (resume_hold handle (read_hold H (hold_path cfg.root handle) d.os) d)

  unfoldable pub resume_listed : Result Fault (List Text) → Driver H → Driver H
  resume_listed (err fault) d = d
  resume_listed (ok entries) d = report_volumes (resume_entries entries d)

  -- `resume`
  unfoldable pub resume : Driver H → Driver H
  unfolding resume_listed
  resume d = resume_listed (H.read_dir (join_path (cfg.root ∷ holds_directory ∷ [])) d.os) d
