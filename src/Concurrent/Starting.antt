-- ===== src/Concurrent/Starting.antt =====
-- holds.go: `resume` as a goroutine, which a crash can cut off between any two accesses.
use per_node_csi_driver.Prelude.{◌≡◌, refl, ◌∙◌, ap, not, List, [], ◌∷◌, Text, arith}
use per_node_csi_driver.Prelude.{if◌then◌else◌}
use per_node_csi_driver.Prelude.Exec.{Result, ok, err}
use per_node_csi_driver.Host.{Fault, Host, Hold}
use per_node_csi_driver.Map.{insert}
use per_node_csi_driver.Path.{join_path}
use per_node_csi_driver.Store.{hold_path, holds_directory}
use per_node_csi_driver.Driver.{Driver, Settings}
use per_node_csi_driver.Holds
use per_node_csi_driver.Holds.{read_hold, mounted_now}
use per_node_csi_driver.Calls.{new_node, start}
use per_node_csi_driver.Concurrent.{Thread, ret, read, update, andthen, alone, alone-andthen}
use per_node_csi_driver.Concurrent.Operations.{report_volumes, drop_hold}
use per_node_csi_driver.Concurrent.Operations.Alone.Publishing.{alone-drop_hold}

module _ (H : Host) (cfg : Settings) where
  -- What `resume` does of one file, with the hold it read.
  unfoldable pub resume_hold : Text → Result Fault Hold → Thread (Driver H) Unit
  resume_hold handle (err fault) = drop_hold H cfg handle
  resume_hold handle (ok taken) =
      read (λ d. mounted_now H cfg.mountinfo taken.target d.os)
        (λ mounted.
          if not mounted
          then drop_hold H cfg handle
          else update (λ d. record d { holds = insert handle taken d.holds }) (ret tt))

  unfoldable pub resume_entries : List Text → Thread (Driver H) Unit
  resume_entries [] = ret tt
  resume_entries (handle ∷ entries) =
      let rest = resume_entries entries in
      andthen (read (λ d. read_hold H (hold_path cfg.root handle) d.os) (resume_hold handle))
        (λ _. rest)

  unfoldable pub resume_listed : Result Fault (List Text) → Thread (Driver H) Unit
  resume_listed (err fault) = ret tt
  resume_listed (ok entries) = andthen (resume_entries entries) (λ _. report_volumes H (ret tt))

  -- `resume`
  unfoldable pub resume : Thread (Driver H) Unit
  resume = read (λ d. H.read_dir (join_path (cfg.root ∷ holds_directory ∷ [])) d.os) resume_listed

  alone-resume_hold :
      (handle : Text) (found : Result Fault Hold) (d : Driver H)
      → alone (resume_hold handle found) d ≡ (tt, Holds.resume_hold H cfg handle found d)
  unfolding alone resume_hold Holds.resume_hold
  alone-resume_hold handle (err fault) d = alone-drop_hold H cfg handle d
  alone-resume_hold handle (ok taken) d = ground (arith, alone-drop_hold H cfg handle d)

  alone-resume_entries :
      (entries : List Text) (d : Driver H)
      → alone (resume_entries entries) d ≡ (tt, Holds.resume_entries H cfg entries d)
  unfolding alone andthen resume_entries Holds.resume_entries
  alone-resume_entries [] d = refl
  alone-resume_entries (handle ∷ entries) d =
      let found = read_hold H (hold_path cfg.root handle) d.os in
      alone-andthen (resume_hold handle found) _ d
      ∙ ap (λ p. alone (resume_entries entries) p.1) (alone-resume_hold handle found d)
      ∙ alone-resume_entries entries _

  alone-resume_listed :
      (listed : Result Fault (List Text)) (d : Driver H)
      → alone (resume_listed listed) d ≡ (tt, Holds.resume_listed H cfg listed d)
  unfolding alone resume_listed Holds.resume_listed report_volumes Holds.report_volumes
  alone-resume_listed (err fault) d = refl
  alone-resume_listed (ok entries) d =
      alone-andthen (resume_entries entries) _ d
      ∙ ap (λ p. (tt, Holds.report_volumes p.1)) (alone-resume_entries entries d)

  -- A start that nothing cuts off is the start in one step.
  pub alone-resume : (s : H.State) → (alone resume (new_node s)).1 ≡ start H cfg s
  unfolding alone resume start Holds.resume Holds.resume_listed
  alone-resume s = ap (λ p. p.1) (alone-resume_listed _ (new_node s))
