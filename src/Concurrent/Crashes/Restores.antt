-- ===== src/Concurrent/Crashes/Restores.antt =====
-- What a start of the driver reads of a pod that runs, and what it leaves.
use per_node_csi_driver.Prelude.{
  ℕ, zero, suc, ◌≡◌, ◌≢◌, sym, subst, ◌∙◌, ap, true, some, List, [], ◌∷◌, Text, All, text_eq,
  text_beq_iff, ◌==◌, inl, inr, Bool-cases,
}
use per_node_csi_driver.Prelude.Exec.{Result, ok, err}
use per_node_csi_driver.Handle.Check.{IsElement}
use per_node_csi_driver.Host.{Fault, Host, Hold}
use per_node_csi_driver.Host.Files.{FileTable}
use per_node_csi_driver.Map.{lookup}
use per_node_csi_driver.Path.{join_path}
use per_node_csi_driver.Store.{hold_path, holds_directory}
use per_node_csi_driver.Driver.{Driver, Settings}
use per_node_csi_driver.Holds.{read_hold, mounted_now}
use per_node_csi_driver.Holds.Resume.{Once, recorded}
use per_node_csi_driver.Calls.{new_node, start}
use per_node_csi_driver.Calls.Restart.{start-restores}
use per_node_csi_driver.Node.Publish.Outcome.{HeldAt}
use per_node_csi_driver.Concurrent.{Thread, ret, act, alone}
use per_node_csi_driver.Concurrent.Schedule.{Keeps, Keeps-andthen}
use per_node_csi_driver.Concurrent.Operations.{report_volumes, drop_hold}
use per_node_csi_driver.Concurrent.Running.Needs.{Spares}
use per_node_csi_driver.Concurrent.Starting.{
  resume_hold, resume_entries, resume_listed, resume, alone-resume,
}
use per_node_csi_driver.Concurrent.Crashes.{cut}

-- On every machine with the property, a start can read that the pod holds the handle at the target.
pub record Restores (H : Host) (cfg : Settings) (j uid target : Text) (Q : H.State → Type 0)
    : Type 0 where
  pub file :
      (s : H.State)
      → Q s
      → (standing : Hold) × (read_hold H (hold_path cfg.root j) s ≡ ok standing)
        × HeldAt uid target (some standing)
  pub mounted : (s : H.State) → Q s → mounted_now H cfg.mountinfo target s ≡ true
  pub listed :
      (s : H.State)
      → Q s
      → (entries : List Text) × (H.read_dir (join_path (cfg.root ∷ holds_directory ∷ [])) s
          ≡ ok entries)
        × All IsElement entries
        × All (λ other. hold_path cfg.root other ≢ cfg.mountinfo) entries
        × Once j entries

module _ {S A : Type 0} (P : S → Type 0) where
  pub alone-Keeps : (m : Thread S A) (s : S) → Keeps P m → P s → P (alone m s).1
  unfolding alone
  alone-Keeps (ret a) s h p = p
  alone-Keeps (act f next) s h p = let (q, later) = h s p in alone-Keeps (next s) (f s) later q

  pub cut-Keeps : (n : ℕ) (m : Thread S A) (s : S) → Keeps P m → P s → P (cut n m s)
  unfolding cut
  cut-Keeps zero m s h p = p
  cut-Keeps (suc n) (ret a) s h p = p
  cut-Keeps (suc n) (act f next) s h p =
      let (q, later) = h s p in cut-Keeps n (next s) (f s) later q

module _ {H : Host} (cfg : Settings) {j uid target : Text} {Q : H.State → Type 0}
    {Apart : Text → Type 0} (S : Spares H cfg.root j Q Apart)
    (R : Restores H cfg j uid target Q) where
  -- What a start must leave, whatever it has read so far.
  abbrev pub OnMachine : Driver H → Type 0
  OnMachine d = Q d.os

  drop_hold-OnMachine :
      (handle : Text) → handle ≢ j → IsElement handle → Keeps OnMachine (drop_hold H cfg handle)
  unfolding drop_hold report_volumes
  drop_hold-OnMachine handle other element =
      λ d q. (q, λ e r. (r, λ f t. (t, λ g u. (S.remove_hold handle other element g.os u, tt))))

  resume_other-OnMachine :
      (handle : Text) (found : Result Fault Hold)
      → handle ≢ j
      → IsElement handle
      → Keeps OnMachine (resume_hold H cfg handle found)
  unfolding resume_hold
  resume_other-OnMachine handle (err fault) other element = drop_hold-OnMachine handle other element
  resume_other-OnMachine handle (ok taken) other element = λ d q. (
    q,
    elim (Bool-cases (mounted_now H cfg.mountinfo taken.target d.os)) [
      | inl there ↦ rw there (λ e r. (r, tt))
      | inr gone ↦ rw gone (drop_hold-OnMachine handle other element)
    ],
  )

  resume_own-OnMachine :
      (handle : Text) (standing : Hold)
      → standing.target ≡ target
      → Keeps OnMachine (resume_hold H cfg handle (ok standing))
  unfolding resume_hold
  resume_own-OnMachine handle standing at = λ d q.
      (q, rw (ap (λ t. mounted_now H cfg.mountinfo t d.os) at ∙ R.mounted d.os q) (λ e r. (r, tt)))

  resume_read-OnMachine :
      (handle : Text) (s : H.State)
      → Q s
      → IsElement handle
      → Keeps OnMachine (resume_hold H cfg handle (read_hold H (hold_path cfg.root handle) s))
  resume_read-OnMachine handle s q element = elim (Bool-cases (handle == j)) [
    | inr other ↦
        resume_other-OnMachine handle _ (λ e. cc (other, (text_beq_iff handle j).1 e)) element
    | inl same ↦
        let (standing, found, held) = R.file s q in
        let here =
          ap (λ h. read_hold H (hold_path cfg.root h) s) ((text_beq_iff handle j).0 same) in
        rw (here ∙ found) (resume_own-OnMachine handle standing held.1)
  ]

  resume_entries-OnMachine :
      (entries : List Text) → All IsElement entries → Keeps OnMachine (resume_entries H cfg entries)
  unfolding resume_entries
  resume_entries-OnMachine [] all = tt
  resume_entries-OnMachine (handle ∷ entries) (element, all) =
      let rest = resume_entries-OnMachine entries all in
      Keeps-andthen OnMachine _ _ (λ d q. (q, resume_read-OnMachine handle d.os q element))
        (λ _. rest)

  resume-OnMachine : Keeps OnMachine (resume H cfg)
  unfolding resume resume_listed report_volumes
  resume-OnMachine = λ d q.
      let (entries, listed, elements, _, _) = R.listed d.os q in
      (
        q,
        rw listed (
            Keeps-andthen OnMachine (resume_entries H cfg entries) _
              (resume_entries-OnMachine entries elements) (λ _ e r. (r, λ f t. (t, tt)))),
      )

  -- A start that is cut off leaves what the pod needs.
  pub cut-resume : (n : ℕ) (s : H.State) → Q s → Q (cut n (resume H cfg) (new_node s)).os
  unfolding new_node
  cut-resume n s q = cut-Keeps OnMachine n (resume H cfg) (new_node s) resume-OnMachine q

  start-OnMachine : (s : H.State) → Q s → Q (start H cfg s).os
  unfolding new_node
  start-OnMachine s q =
      subst OnMachine (alone-resume H cfg s)
        (alone-Keeps OnMachine (resume H cfg) (new_node s) resume-OnMachine q)

  recorded_there : (s : H.State) → Q s → HeldAt uid target (recorded H cfg j s)
  recorded_there s q =
      let (standing, found, held) = R.file s q in
      let there = ap (λ t. mounted_now H cfg.mountinfo t s) held.1 ∙ R.mounted s q in
      rw (found, there) held

  -- A start finds the pod that runs, and leaves what it needs.
  pub start_finds :
      FileTable H
      → IsElement j
      → (s : H.State) → Q s
      → HeldAt uid target (lookup j (start H cfg s).holds) × Q (start H cfg s).os
  start_finds F ej s q =
      let (entries, listed, elements, apart, once) = R.listed s q in
      (
        subst (HeldAt uid target)
            (sym (start-restores H F cfg s entries j listed ej elements apart once))
            (recorded_there s q),
        start-OnMachine s q,
      )
