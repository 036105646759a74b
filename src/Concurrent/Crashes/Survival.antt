-- ===== src/Concurrent/Crashes/Survival.antt =====
-- A pod that runs while the driver stops and starts again, any number of times.
use per_node_csi_driver.Prelude.{ℕ, ◌≡◌, ◌≢◌, sym, ◌∙◌, ap, true, List, [], ◌∷◌, map, Text, All}
use per_node_csi_driver.Handle.Check.{IsElement}
use per_node_csi_driver.Host.{Host}
use per_node_csi_driver.Host.Laws.{Binding, MountTable, IsBelow}
use per_node_csi_driver.Host.Files.{FileTable}
use per_node_csi_driver.Host.Disk.{DiskFile, PublishedMounts, ListedDirectory}
use per_node_csi_driver.Path.{join_path}
use per_node_csi_driver.Store.{hold_path, holds_directory, handles}
use per_node_csi_driver.Store.Paths.{hold_path-child}
use per_node_csi_driver.Driver.{Driver, Settings}
use per_node_csi_driver.Holds.{read_hold, mounted_now}
use per_node_csi_driver.Holds.MountInfo.Table.{mounted_in-table_of}
use per_node_csi_driver.Calls.{Call}
use per_node_csi_driver.Concurrent.Schedule.{interleave, interleave-Keeps}
use per_node_csi_driver.Concurrent.Operations.{serve}
use per_node_csi_driver.Concurrent.Running.{IsRunning}
use per_node_csi_driver.Concurrent.Running.Needs.{Spares}
use per_node_csi_driver.Concurrent.Running.Recorded.{IsKept, IsForeign, IsKept-Spares}
use per_node_csi_driver.Concurrent.Running.Calls.{IsHarmless, serve-All}
use per_node_csi_driver.Concurrent.Crashes.{Epoch, served, starting, stopped, restarted}
use per_node_csi_driver.Concurrent.Crashes.Restores.{Restores, cut-resume, start_finds}

module _ (H : Host) (F : FileTable H) (T : MountTable H) (cfg : Settings) (j uid target : Text)
    (bindings : List Binding) (ej : IsElement j) (D : DiskFile H (hold_path cfg.root j))
    (M : PublishedMounts H T cfg.mountinfo target)
    (L : ListedDirectory H (join_path (cfg.root ∷ holds_directory ∷ [])) j) where
  abbrev Q : H.State → Type 0
  Q = IsKept H F T cfg j uid target bindings ej D

  -- The calls of others leave it.
  abbrev pub spares : Spares H cfg.root j Q (IsForeign H F T cfg j uid target bindings ej D)
  spares = IsKept-Spares H F T cfg j uid target bindings ej D

  mounted_there :
      (s : H.State)
      → bindings ≢ []
      → T.mounts s target ≡ bindings
      → mounted_now H cfg.mountinfo target s ≡ true
  unfolding mounted_now
  mounted_there s some_mount kept = rw (M.published s) (
      (mounted_in-table_of (M.entries s) target (M.entries_written s)).1
        (M.has_point s (λ e. some_mount (sym kept ∙ e))))

  holds_apart :
      (entries : List Text)
      → ¬ IsBelow (join_path (cfg.root ∷ holds_directory ∷ [])) cfg.mountinfo
      → All IsElement entries
      → All (λ other. hold_path cfg.root other ≢ cfg.mountinfo) entries
  holds_apart [] outside all = tt
  holds_apart (other ∷ entries) outside (element, all) = (
    λ e. outside (other, sym e ∙ hold_path-child cfg.root other element),
    holds_apart entries outside all,
  )

  IsKept-Restores :
      bindings ≢ []
      → ¬ IsBelow (join_path (cfg.root ∷ holds_directory ∷ [])) cfg.mountinfo
      → Restores H cfg j uid target Q
  unfolding read_hold
  IsKept-Restores some_mount outside = record {
    file = λ s ((there, kept), (content, read, (standing, json, held))).
        (standing, rw read json, held);
    mounted = λ s ((there, kept), recorded). mounted_there s some_mount kept;
    listed = λ s (provided, (content, read, text)).
        let (entries, listed, elements, once) =
          L.lists content s
            (ap (λ path. H.read_file path s) (sym (hold_path-child cfg.root j ej)) ∙ read) in
        (entries, listed, elements, holds_apart entries outside elements, once);
  }

  -- The calls that a process served before it stopped keep out of the way of the pod.
  abbrev pub IsHarmlessEpoch : Epoch → Type 0
  IsHarmlessEpoch (served calls turns) = All (IsHarmless cfg spares uid target) calls
  IsHarmlessEpoch (starting n) = Unit

  module _ (some_mount : bindings ≢ [])
      (outside : ¬ IsBelow (join_path (cfg.root ∷ holds_directory ∷ [])) cfg.mountinfo)
      (listed : (s : H.State) → All IsElement (handles H cfg.root s)) where
    abbrev pub Runs : Driver H → Type 0
    Runs = IsRunning spares uid target

    stopped-IsKept :
        (epoch : Epoch) (d : Driver H) → IsHarmlessEpoch epoch → Runs d → Q (stopped H cfg epoch d)
    unfolding stopped
    stopped-IsKept (served calls turns) d all running =
        (interleave-Keeps Runs turns d _ (serve-All cfg spares uid target calls listed all)
          running).1
    stopped-IsKept (starting n) d h running =
        cut-resume cfg spares (IsKept-Restores some_mount outside) n d.os running.1

    restarted-Runs :
        (epochs : List Epoch) (d : Driver H)
        → All IsHarmlessEpoch epochs
        → Runs d
        → Runs (restarted H cfg epochs d)
    unfolding restarted
    restarted-Runs [] d all running = running
    restarted-Runs (epoch ∷ epochs) d (h, all) running = restarted-Runs epochs _ all (
        start_finds cfg spares (IsKept-Restores some_mount outside) F ej _
          (stopped-IsKept epoch d h running))

    -- A pod that runs survives the driver. The driver may stop any number of times, at any access of
    -- the calls it serves or of its start, and is started again each time. Afterwards, and while it
    -- serves calls again, the pod still holds the handle at its target, its copy and its mounts are
    -- there, and so is the file of its hold. The calls of all the processes run at the same time and
    -- in any order, and the sweep makes any passes. The calls unpublish other targets, and publish
    -- other handles, or this one for other pods, or again for this pod at this target. All other
    -- targets lie apart from the copy, from the pod's target and from the file of its hold. The
    -- handles, and what the directory of the copies lists, are names of entries. Something is mounted
    -- at the pod's target, and the kernel publishes that in the mount table. The calls of the kernel
    -- for other paths leave the file of the hold, and the directory of the holds lists it, once, and
    -- does not hold the mount table.
    pub restarted-IsRunning :
        (epochs : List Epoch) (calls : List Call) (turns : List ℕ) (d : Driver H)
        → All IsHarmlessEpoch epochs
        → All (IsHarmless cfg spares uid target) calls
        → IsRunning spares uid target d
        → IsRunning spares uid target
            (interleave turns (restarted H cfg epochs d) (map (serve H cfg) calls)).0
    restarted-IsRunning epochs calls turns d crashes all running =
        interleave-Keeps Runs turns _ _ (serve-All cfg spares uid target calls listed all)
          (restarted-Runs epochs d crashes running)
