-- ===== src/Concurrent/Running/Recorded.antt =====
-- The file of a pod's hold, which the calls of the kernel for other pods leave as it is, so that a
-- later start of the driver finds it.
use per_node_csi_driver.Prelude.{◌≡◌, ◌≢◌, ◌∙◌, some, List, Text}
use per_node_csi_driver.Prelude.Exec.{ok}
use per_node_csi_driver.Handle.Check.{IsElement}
use per_node_csi_driver.Host.{Host, Hold}
use per_node_csi_driver.Host.Laws.{Binding, MountTable}
use per_node_csi_driver.Host.Files.{FileTable}
use per_node_csi_driver.Host.Disk.{DiskFile}
use per_node_csi_driver.Store.{copy_path, hold_path, remove_copy}
use per_node_csi_driver.Store.Paths.{paths_apart, hold_path_not-IsBelow}
use per_node_csi_driver.Driver.{Settings}
use per_node_csi_driver.Node.Publish.Outcome.{HeldAt}
use per_node_csi_driver.Concurrent.Running.Needs.{
  Spares, IsAway, IsProvided, IsApart, IsProvided-Spares,
}

-- What two needs have in common with their sum.
both-Spares :
    {H : Host} {root j : Text} {Q R : H.State → Type 0} {A B : Text → Type 0}
    → Spares H root j Q A
    → Spares H root j R B
    → Spares H root j (λ s. Q s × R s) (λ target. A target × B target)
both-Spares S T = record {
  mkdir_all =
      λ directory mode s (q, r). (S.mkdir_all directory mode s q, T.mkdir_all directory mode s r);
  chmod_copy =
      λ handle mode eh s (q, r). (S.chmod_copy handle mode eh s q, T.chmod_copy handle mode eh s r);
  write_hold = λ handle content other eh s (q, r).
      (S.write_hold handle content other eh s q, T.write_hold handle content other eh s r);
  bind = λ source target (a, b) s (q, r). (S.bind source target a s q, T.bind source target b s r);
  remount = λ source target (a, b) s (q, r).
      (S.remount source target a s q, T.remount source target b s r);
  unmount = λ target (a, b) s (q, r). (S.unmount target a s q, T.unmount target b s r);
  remove = λ target (a, b) s (q, r). (S.remove target a s q, T.remove target b s r);
  remove_hold = λ handle other eh s (q, r).
      (S.remove_hold handle other eh s q, T.remove_hold handle other eh s r);
  remove_copy = λ handle other eh s (q, r).
      (S.remove_copy handle other eh s q, T.remove_copy handle other eh s r);
}

module _ (H : Host) (F : FileTable H) (root j uid target : Text) (ej : IsElement j)
    (D : DiskFile H (hold_path root j)) where
  -- The text is that of a hold of the pod at its target.
  abbrev pub IsHoldText : Text → Type 0
  IsHoldText content =
      (standing : Hold) × (H.unmarshal content ≡ ok standing) × HeldAt uid target (some standing)

  -- The file of the hold is there and names the pod and its target.
  abbrev pub IsRecorded : H.State → Type 0
  IsRecorded s =
      (content : Text) × (H.read_file (hold_path root j) s ≡ ok content) × IsHoldText content

  IsRecorded-Spares : Spares H root j IsRecorded (IsAway (hold_path root j))
  unfolding remove_copy
  IsRecorded-Spares = record {
    mkdir_all = λ directory mode s (content, kept, text).
        (content, D.mkdir_all_keeps directory content mode s kept, text);
    chmod_copy = λ handle mode eh s (content, kept, text). (
      content,
      D.chmod_keeps (copy_path root handle) content mode s (paths_apart root handle j eh ej).2
          (hold_path_not-IsBelow root handle j eh ej) kept,
      text,
    );
    write_hold = λ handle written other eh s (content, kept, text). (
      content,
      D.write_file_keeps (hold_path root handle) written content 0o600 s
          (holds_apart handle other eh) kept,
      text,
    );
    bind = λ source point (other, above) s (content, kept, text).
        (content, D.mount_keeps source point content 4096 s other above kept, text);
    remount = λ source point (other, above) s (content, kept, text).
        (content, D.mount_keeps source point content 4129 s other above kept, text);
    unmount = λ point (other, above) s (content, kept, text).
        (content, D.unmount_keeps point content s other above kept, text);
    remove = λ point (other, above) s (content, kept, text).
        (content, F.remove_keeps_content point (hold_path root j) s other ∙ kept, text);
    remove_hold = λ handle other eh s (content, kept, text). (
      content,
      F.remove_keeps_content (hold_path root handle) (hold_path root j) s
            (holds_apart handle other eh)
          ∙ kept,
      text,
    );
    remove_copy = λ handle other eh s (content, kept, text). (
      content,
      D.remove_all_keeps (copy_path root handle) content s (paths_apart root handle j eh ej).2
          (hold_path_not-IsBelow root handle j eh ej) kept,
      text,
    );
  }
    where
      holds_apart :
          (handle : Text) → handle ≢ j → IsElement handle → hold_path root handle ≢ hold_path root j
      holds_apart handle other eh e = other ((paths_apart root handle j eh ej).1 e)

module _ (H : Host) (F : FileTable H) (T : MountTable H) (cfg : Settings) (j uid target : Text)
    (bindings : List Binding) (ej : IsElement j) (D : DiskFile H (hold_path cfg.root j)) where
  -- The pod's copy and its mounts are there, and the file of its hold.
  abbrev pub IsKept : H.State → Type 0
  IsKept s =
      IsProvided H F T cfg.root j target bindings ej s × IsRecorded H F cfg.root j uid target ej D s

  -- A target of others: it does not lie at or above the copy, the pod's target, or that file.
  abbrev pub IsForeign : Text → Type 0
  IsForeign point =
      IsApart H F T cfg.root j target bindings ej point × IsAway (hold_path cfg.root j) point

  pub IsKept-Spares : Spares H cfg.root j IsKept IsForeign
  IsKept-Spares =
      both-Spares (IsProvided-Spares H F T cfg.root j target bindings ej)
        (IsRecorded-Spares H F cfg.root j uid target ej D)
