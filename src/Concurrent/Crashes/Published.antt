-- ===== src/Concurrent/Crashes/Published.antt =====
-- What a publish leaves is what a pod needs to run through restarts of the driver.
use per_node_csi_driver.Prelude.{◌≡◌, refl, sym, ◌∙◌, ap, none, ◌∷◌, Text, arith, inl, inr}
use per_node_csi_driver.Prelude.{text_eq}
use per_node_csi_driver.Prelude.Exec.{Result-cases, ok}
use per_node_csi_driver.Handle.Check.{IsElement}
use per_node_csi_driver.Host.{Host, Hold}
use per_node_csi_driver.Host.Laws.{MountTable, without_top}
use per_node_csi_driver.Host.Files.{FileTable}
use per_node_csi_driver.Host.Disk.{DiskFile}
use per_node_csi_driver.Map.{lookup}
use per_node_csi_driver.Store.{copy_path, hold_path}
use per_node_csi_driver.Driver.{Driver, Settings}
use per_node_csi_driver.Holds.{read_hold, write_hold, keep_hold, report_volumes}
use per_node_csi_driver.Calls.Restart.{read_hold-write_content}
use per_node_csi_driver.Node.{PublishRequest, pod_in, hold_for}
use per_node_csi_driver.Node.Publish.{
  mount, refuse, publish_mount, publish_held, node_publish_volume,
}
use per_node_csi_driver.Node.Publish.Outcome.{publish-holds}
use per_node_csi_driver.Node.Publish.Mounted.{copy_binding, publish_mount-mounts}
use per_node_csi_driver.Node.Publish.Copied.{publish_mount-copy}
use per_node_csi_driver.Concurrent.Running.{IsRunning}
use per_node_csi_driver.Concurrent.Running.Needs.{IsAway}
use per_node_csi_driver.Concurrent.Running.Recorded.{IsKept-Spares}

-- A hold that can be read has a file with its text.
text_of :
    (H : Host) (path : Text) (taken : Hold) (s : H.State)
    → read_hold H path s ≡ ok taken
    → (content : Text) × (H.read_file path s ≡ ok content) × (H.unmarshal content ≡ ok taken)
unfolding read_hold
text_of H path taken s h = elim (Result-cases (H.read_file path s)) [
  | inl (content, e) ↦ (content, e, rw e at h)
  | inr (fault, e) ↦ absurd (cc (e, h))
]

module _ (H : Host) (F : FileTable H) (T : MountTable H) (cfg : Settings) (r : PublishRequest) where
  publish_free :
      (d : Driver H)
      → lookup r.volume_id d.holds ≡ none
      → (node_publish_volume H cfg r d).0 ≡ ok tt
      → node_publish_volume H cfg r d ≡ publish_mount H cfg r d
  unfolding node_publish_volume publish_held refuse
  publish_free d free h = ground arith

  publish_mount-read_hold :
      (d : Driver H)
      → (publish_mount H cfg r d).0 ≡ ok tt
      → (write_hold H (hold_path cfg.root r.volume_id) (hold_for r) (mount H cfg r d.os).1).0
        ≡ ok tt
      → ((text : Text) → H.marshal (hold_for r) ≡ ok text → H.unmarshal text ≡ ok (hold_for r))
      → read_hold H (hold_path cfg.root r.volume_id) (publish_mount H cfg r d).1.os
        ≡ ok (hold_for r)
  unfolding publish_mount refuse keep_hold report_volumes write_hold
  publish_mount-read_hold d h written json = ground (
    arith,
    read_hold-write_content H F cfg (hold_path cfg.root r.volume_id) (hold_for r)
        (H.marshal (hold_for r)) (mount H cfg r d.os).1 written json,
  )

  module _ (ej : IsElement r.volume_id) (D : DiskFile H (hold_path cfg.root r.volume_id)) where
    -- After a publish of a free handle that succeeds, and that could write its hold, the pod runs, with
    -- everything that it needs to survive restarts of the driver: it holds the handle at its target,
    -- the copy is there, the mount on top at the target is the copy, read-only exactly if the
    -- request says so, and the file of the hold names the pod and its target. The handle is one path
    -- element, the target does not lie at or above the copy, and the JSON of the hold is read back.
    pub publish-IsRunning :
        (d : Driver H)
        → lookup r.volume_id d.holds ≡ none
        → (node_publish_volume H cfg r d).0 ≡ ok tt
        → IsAway (copy_path cfg.root r.volume_id) r.target_path
        → (write_hold H (hold_path cfg.root r.volume_id) (hold_for r) (mount H cfg r d.os).1).0
          ≡ ok tt
        → ((text : Text) → H.marshal (hold_for r) ≡ ok text → H.unmarshal text ≡ ok (hold_for r))
        → IsRunning
            (IsKept-Spares H F T cfg r.volume_id
              (pod_in r).uid
              r.target_path
              (copy_binding H T cfg r ∷ without_top (T.mounts d.os r.target_path))
              ej
              D)
            (pod_in r).uid
            r.target_path
            (node_publish_volume H cfg r d).1
    unfolding hold_for
    publish-IsRunning d free h (other, above) written json =
        let same = publish_free d free h in
        let done = ap (λ p. p.0) (sym same) ∙ h in
        let (content, there, text) =
          text_of H (hold_path cfg.root r.volume_id) (hold_for r) (publish_mount H cfg r d).1.os
            (publish_mount-read_hold d done written json) in
        (
          (publish-holds H cfg r d).0 h,
          rw same (
            (
              publish_mount-copy H F cfg r other above d done,
              publish_mount-mounts H T cfg r d done,
            ),
            (content, there, (hold_for r, text, (refl, refl))),
          ),
        )
