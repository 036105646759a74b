-- ===== src/Concurrent/Running/Records.antt =====
-- The mount and the records of another handle, while a pod runs.
use per_node_csi_driver.Prelude.{◌≢◌, arith, Text}
use per_node_csi_driver.Prelude.{text_eq, text_beq_iff}
use per_node_csi_driver.Prelude.Exec.{Result, ok, err}
use per_node_csi_driver.Status.{Status}
use per_node_csi_driver.Host.{Fault, Host, Hold}
use per_node_csi_driver.Events.{Reason}
use per_node_csi_driver.Map.{Map, insert, erase, lookup, lookup-insert, lookup-erase}
use per_node_csi_driver.Store.{copy_path, copy_mode, hold_path}
use per_node_csi_driver.Driver.{Driver, Settings, post}
use per_node_csi_driver.Node.{PublishRequest}
use per_node_csi_driver.Node.Publish.Outcome.{HeldAt}
use per_node_csi_driver.Concurrent.{Thread}
use per_node_csi_driver.Concurrent.Schedule.{Keeps, Keeps-by_result}
use per_node_csi_driver.Concurrent.Operations.{
  report_volumes, write_hold, keep_hold, drop_hold, mount, refuse,
}
use per_node_csi_driver.Path.{directory_of}
use per_node_csi_driver.Handle.Check.{IsElement}
use per_node_csi_driver.Concurrent.Running.Needs.{Spares}
use per_node_csi_driver.Concurrent.Running.{
  IsRunning, internally-Keeps, internal_call-Keeps, chain-Keeps, unbind-Keeps, bind-Keeps,
}

module _ {H : Host} (cfg : Settings) {j : Text} {Q : H.State → Type 0} {Apart : Text → Type 0}
    (S : Spares H cfg.root j Q Apart) (uid held_target : Text) where
  -- What the section is about.
  abbrev P : Driver H → Type 0
  P = IsRunning S uid held_target

  pub mount-Keeps :
      (r : PublishRequest) → Apart r.target_path → IsElement r.volume_id → Keeps P (mount H cfg r)
  unfolding mount
  mount-Keeps r apart element =
      let copy = copy_path cfg.root r.volume_id in
      chain-Keeps S uid held_target _ _
        (internal_call-Keeps S uid held_target (H.mkdir_all copy copy_mode)
          (S.mkdir_all copy copy_mode))
        (chain-Keeps S uid held_target _ _
          (internal_call-Keeps S uid held_target (H.chmod copy copy_mode)
            (S.chmod_copy r.volume_id copy_mode element))
          (chain-Keeps S uid held_target _ _
            (internal_call-Keeps S uid held_target (H.mkdir_all r.target_path 0o755)
              (S.mkdir_all r.target_path 0o755))
            (chain-Keeps S uid held_target _ _
              (internally-Keeps S uid held_target _
                (unbind-Keeps S uid held_target r.target_path apart))
              (internally-Keeps S uid held_target _
                (bind-Keeps S uid held_target copy r.target_path r.read_only apart)))))

  report_volumes-Keeps :
      {A : Type 0} (rest : Thread (Driver H) A) → Keeps P rest → Keeps P (report_volumes H rest)
  unfolding report_volumes
  report_volumes-Keeps rest h = λ d p. (p, λ e q. (q, h))

  write_hold-Keeps :
      (handle : Text) (written : Result Fault Text)
      → handle ≢ j
      → IsElement handle
      → Keeps P (write_hold H cfg (hold_path cfg.root handle) written)
  unfolding write_hold
  write_hold-Keeps handle (err fault) other element = tt
  write_hold-Keeps handle (ok content) other element = λ d (held, q).
      let directory = directory_of (hold_path cfg.root handle) in
      (
        (held, S.mkdir_all directory 0o755 d.os q),
        Keeps-by_result P _ _
            (λ a e (still, r). ((still, S.write_hold handle content other element e.os r), tt))
            (λ fault. tt) (H.mkdir_all directory 0o755 d.os).0,
      )

  insert-HeldAt :
      (handle : Text) (taken : Hold) (holds : Map Hold)
      → handle ≢ j
      → HeldAt uid held_target (lookup j holds)
      → HeldAt uid held_target (lookup j (insert handle taken holds))
  insert-HeldAt handle taken holds other held =
      ground (arith, lookup-insert handle j taken holds, text_beq_iff handle j)

  pub keep_hold-Keeps :
      (handle : Text) (taken : Hold)
      → handle ≢ j
      → IsElement handle
      → Keeps P (keep_hold H cfg handle taken)
  unfolding keep_hold
  keep_hold-Keeps handle taken other element = λ d (held, q). (
    (insert-HeldAt handle taken d.holds other held, q),
    report_volumes-Keeps _ (write_hold-Keeps handle (H.marshal taken) other element),
  )

  erase-HeldAt :
      (handle : Text) (holds : Map Hold)
      → handle ≢ j
      → HeldAt uid held_target (lookup j holds)
      → HeldAt uid held_target (lookup j (erase handle holds))
  erase-HeldAt handle holds other held =
      ground (arith, lookup-erase handle j holds, text_beq_iff handle j)

  pub drop_hold-Keeps :
      (handle : Text) → handle ≢ j → IsElement handle → Keeps P (drop_hold H cfg handle)
  unfolding drop_hold
  drop_hold-Keeps handle other element = λ d (held, q). (
    (erase-HeldAt handle d.holds other held, q),
    report_volumes-Keeps _
        (λ e (still, r). ((still, S.remove_hold handle other element e.os r), tt)),
  )

  pub refuse-Keeps :
      (r : PublishRequest) (reason : Reason) (s : Status) → Keeps P (refuse H cfg r reason s)
  unfolding refuse post
  refuse-Keeps r reason s = λ d p. (p, tt)
