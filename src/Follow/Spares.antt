-- ===== src/Follow/Spares.antt =====
-- A pod that runs, while the loop of the sweep goes on beside the calls.
use per_node_csi_driver.Prelude.{subst, Bool, true, false, List, All, Text}
use per_node_csi_driver.Handle.Check.{IsElement}
use per_node_csi_driver.Host.{Host}
use per_node_csi_driver.Host.Laws.{Binding, MountTable}
use per_node_csi_driver.Host.Files.{FileTable}
use per_node_csi_driver.Store.{handles}
use per_node_csi_driver.Driver.{Driver, Settings}
use per_node_csi_driver.Sweep.{handles_of}
use per_node_csi_driver.Concurrent.{act}
use per_node_csi_driver.Concurrent.Schedule.{Keeps, advance-Keeps}
use per_node_csi_driver.Concurrent.Running.{IsRunning}
use per_node_csi_driver.Concurrent.Running.Needs.{Spares, IsProvided-Spares}
use per_node_csi_driver.Concurrent.Running.Calls.{IsHarmless, sweep-Keeps, serve-Keeps}
use per_node_csi_driver.Follow.{
  Phase, syncing, waiting, due, ended, sweeping, Following, follow, added, updated, deletes, synced,
  unsynced, receive, tick, begins, sweeps, swept, done, arrives, turn, Steps, start, ◌andthen◌,
}

module _ {H : Host} (cfg : Settings) {j : Text} {Q : H.State → Type 0} {Apart : Text → Type 0}
    (S : Spares H cfg.root j Q Apart) (uid held_target : Text) where
  abbrev P : Driver H → Type 0
  P = IsRunning S uid held_target

  -- The calls of the kubelet keep out of the way of the pod.
  abbrev pub AreHarmless : {f g : Following H} → Steps H cfg f g → Type 0
  AreHarmless start = Unit
  AreHarmless (steps andthen added object) = AreHarmless steps
  AreHarmless (steps andthen updated before after old new e) = AreHarmless steps
  AreHarmless (steps andthen deletes before after object e) = AreHarmless steps
  AreHarmless (steps andthen synced p) = AreHarmless steps
  AreHarmless (steps andthen unsynced p) = AreHarmless steps
  AreHarmless (steps andthen receive p q) = AreHarmless steps
  AreHarmless (steps andthen tick p) = AreHarmless steps
  AreHarmless (steps andthen begins p) = AreHarmless steps
  AreHarmless (steps andthen sweeps p) = AreHarmless steps
  AreHarmless (steps andthen swept p) = AreHarmless steps
  AreHarmless (steps andthen done p) = AreHarmless steps
  AreHarmless (steps andthen arrives c k) = AreHarmless steps × IsHarmless cfg S uid held_target c
  AreHarmless (steps andthen turn i) = AreHarmless steps

  -- What is left of a pass under way leaves the pod running.
  abbrev PhaseKeeps : Phase H → Type 0
  PhaseKeeps syncing = Unit
  PhaseKeeps waiting = Unit
  PhaseKeeps due = Unit
  PhaseKeeps ended = Unit
  PhaseKeeps (sweeping thread) = Keeps P thread

  abbrev GoesOn : Following H → Type 0
  GoesOn f = P f.driver × PhaseKeeps f.phase × All (Keeps P) f.calls

  pub steps-GoesOn :
      {f g : Following H} (steps : Steps H cfg f g)
      → ((s : H.State) → All IsElement (handles H cfg.root s))
      → AreHarmless steps
      → GoesOn f
      → GoesOn g
  steps-GoesOn start listed h on = on
  steps-GoesOn (steps andthen added object) listed h on = steps-GoesOn steps listed h on
  steps-GoesOn (steps andthen updated before after old new e) listed h on =
      steps-GoesOn steps listed h on
  steps-GoesOn (steps andthen deletes before after object e) listed h on =
      steps-GoesOn steps listed h on
  steps-GoesOn (steps andthen synced p) listed h on =
      let (runs, _, calls) = steps-GoesOn steps listed h on in (runs, tt, calls)
  steps-GoesOn (steps andthen unsynced p) listed h on =
      let (runs, _, calls) = steps-GoesOn steps listed h on in (runs, tt, calls)
  steps-GoesOn (steps andthen receive p q) listed h on =
      let (runs, _, calls) = steps-GoesOn steps listed h on in (runs, tt, calls)
  steps-GoesOn (steps andthen tick p) listed h on =
      let (runs, _, calls) = steps-GoesOn steps listed h on in (runs, tt, calls)
  steps-GoesOn (steps andthen begins {f = f} p) listed h on =
      let (runs, _, calls) = steps-GoesOn steps listed h on in
      (runs, sweep-Keeps cfg S uid held_target (handles_of f.cached) listed, calls)
  steps-GoesOn (steps andthen sweeps {f = f} {change = change} {next = next} p) listed h on =
      let (runs, keeps, calls) = steps-GoesOn steps listed h on in
      let rest : Keeps P (act change next) = subst PhaseKeeps p keeps in
      let (still, later) = rest f.driver runs in (still, later, calls)
  steps-GoesOn (steps andthen swept p) listed h on =
      let (runs, _, calls) = steps-GoesOn steps listed h on in (runs, tt, calls)
  steps-GoesOn (steps andthen done p) listed h on =
      let (runs, _, calls) = steps-GoesOn steps listed h on in (runs, tt, calls)
  steps-GoesOn (steps andthen arrives c k) listed (h, harmless) on =
      let (runs, keeps, calls) = steps-GoesOn steps listed h on in
      (runs, keeps, (serve-Keeps cfg S uid held_target c listed harmless, calls))
  steps-GoesOn (steps andthen turn {f = f} i) listed h on =
      let (runs, keeps, calls) = steps-GoesOn steps listed h on in
      let (still, later) = advance-Keeps P i f.driver f.calls calls runs in (still, keeps, later)

module _ (H : Host) (F : FileTable H) (T : MountTable H) (cfg : Settings) (j uid target : Text)
    (bindings : List Binding) (ej : IsElement j) where
  -- From its start on, the loop of the sweep leaves a pod running, whatever the ticker and the
  -- informer do, and however the accesses of its passes and of the calls of the kubelet come between
  -- one another: the pod still holds the handle at its target, the copy is there, and the mounts at
  -- the target are as they were. The calls unpublish one path element each, at other targets, and
  -- publish other handles, or this one for other pods, or again for this pod at this target. All
  -- other targets lie apart from the copy and from the pod's target. The handle, and what the
  -- directory of the copies lists, are names of entries.
  pub follow-IsRunning :
      (has_client : Bool) (d : Driver H) {g : Following H}
      (steps : Steps H cfg (follow has_client d) g)
      → ((s : H.State) → All IsElement (handles H cfg.root s))
      → AreHarmless cfg (IsProvided-Spares H F T cfg.root j target bindings ej) uid target steps
      → IsRunning (IsProvided-Spares H F T cfg.root j target bindings ej) uid target d
      → IsRunning (IsProvided-Spares H F T cfg.root j target bindings ej) uid target g.driver
  unfolding follow
  follow-IsRunning true d steps listed h runs =
      (steps-GoesOn cfg (IsProvided-Spares H F T cfg.root j target bindings ej) uid target steps
        listed h (runs, tt, tt)).0
  follow-IsRunning false d steps listed h runs =
      (steps-GoesOn cfg (IsProvided-Spares H F T cfg.root j target bindings ej) uid target steps
        listed h (runs, tt, tt)).0
