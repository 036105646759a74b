-- ===== src/Holds/Resume.antt =====
-- What `resume` takes back after a restart.
use per_node_csi_driver.Prelude.{
  sym, subst, ◌≡◌, refl, ◌≢◌, ◌∙◌, Option, none, some, List, [], ◌∷◌, arith,
}
use per_node_csi_driver.Prelude.{◌⊎◌, inl, inr, Text, All, if◌then◌else◌, text_eq, text_beq_iff}
use per_node_csi_driver.Prelude.Exec.{Result, ok, err}
use per_node_csi_driver.Handle.Check.{IsElement}
use per_node_csi_driver.Host.{Host, Hold, Fault}
use per_node_csi_driver.Host.Files.{FileTable}
use per_node_csi_driver.Map.{lookup, lookup-insert, lookup-erase}
use per_node_csi_driver.Store.{hold_path}
use per_node_csi_driver.Store.Paths.{paths_apart}
use per_node_csi_driver.Driver.{Driver, Settings}
use per_node_csi_driver.Holds.{
  read_hold, mounted_now, report_volumes, drop_hold, resume_hold, resume_entries,
}

-- The list holds the name, and once.
abbrev pub Once : Text → List Text → Type 0
Once name [] = ⊥
Once name (entry ∷ entries) =
    ((entry ≡ name) × All (λ other. other ≢ name) entries) ⊎ ((entry ≢ name) × Once name entries)

module _ (H : Host) (cfg : Settings) where
  -- The hold that a file records, if the kernel still has its mount.
  abbrev pub still_mounted : Result Fault Hold → H.State → Option Hold
  still_mounted (err fault) s = none
  still_mounted (ok taken) s =
      if mounted_now H cfg.mountinfo taken.target s then some taken else none

  abbrev pub recorded : Text → H.State → Option Hold
  recorded handle s = still_mounted (read_hold H (hold_path cfg.root handle) s) s

module _ (H : Host) (F : FileTable H) (cfg : Settings) where
  resume_hold-lookup :
      (handle : Text) (found : Result Fault Hold) (d : Driver H)
      → lookup handle d.holds ≡ none
      → lookup handle (resume_hold H cfg handle found d).holds ≡ still_mounted H cfg found d.os
  unfolding resume_hold drop_hold report_volumes
  resume_hold-lookup handle (err fault) d free = ground (arith, lookup-erase handle handle d.holds)
  resume_hold-lookup handle (ok taken) d free = ground (
    arith,
    lookup-erase handle handle d.holds,
    lookup-insert handle handle taken d.holds,
    text_beq_iff handle handle,
  )

  resume_hold_elsewhere :
      (other handle : Text) (found : Result Fault Hold) (d : Driver H)
      → other ≢ handle
      → lookup handle (resume_hold H cfg other found d).holds ≡ lookup handle d.holds
  unfolding resume_hold drop_hold report_volumes
  resume_hold_elsewhere other handle (err fault) d differs =
      ground (arith, lookup-erase other handle d.holds, text_beq_iff other handle)
  resume_hold_elsewhere other handle (ok taken) d differs = ground (
    arith,
    lookup-erase other handle d.holds,
    lookup-insert other handle taken d.holds,
    text_beq_iff other handle,
  )

  resume_hold_keeps_content :
      (other path : Text) (found : Result Fault Hold) (d : Driver H)
      → hold_path cfg.root other ≢ path
      → H.read_file path (resume_hold H cfg other found d).os ≡ H.read_file path d.os
  unfolding resume_hold drop_hold report_volumes
  resume_hold_keeps_content other path (err fault) d differs =
      ground (arith, F.remove_keeps_content (hold_path cfg.root other) path d.os differs)
  resume_hold_keeps_content other path (ok taken) d differs =
      ground (arith, F.remove_keeps_content (hold_path cfg.root other) path d.os differs)

  pub resume_entries_elsewhere :
      (entries : List Text) (handle : Text) (d : Driver H)
      → All (λ other. other ≢ handle) entries
      → lookup handle (resume_entries H cfg entries d).holds ≡ lookup handle d.holds
  unfolding resume_entries
  resume_entries_elsewhere [] handle d all = refl
  resume_entries_elsewhere (other ∷ entries) handle d (differs, all) =
      resume_entries_elsewhere entries handle _ all ∙ resume_hold_elsewhere other handle _ d differs

  still_mounted-same :
      (found : Result Fault Hold) (s t : H.State)
      → H.read_file cfg.mountinfo t ≡ H.read_file cfg.mountinfo s
      → still_mounted H cfg found t ≡ still_mounted H cfg found s
  unfolding mounted_now
  still_mounted-same (err fault) s t h = refl
  still_mounted-same (ok taken) s t h = rw h refl

  recorded-same :
      (handle : Text) (s t : H.State)
      → H.read_file (hold_path cfg.root handle) t ≡ H.read_file (hold_path cfg.root handle) s
      → H.read_file cfg.mountinfo t ≡ H.read_file cfg.mountinfo s
      → recorded H cfg handle t ≡ recorded H cfg handle s
  unfolding read_hold
  recorded-same handle s t p q = rw p (still_mounted-same _ s t q)

  pub resume_entries-lookup :
      (entries : List Text) (handle : Text) (d : Driver H)
      → IsElement handle
      → All IsElement entries
      → All (λ other. hold_path cfg.root other ≢ cfg.mountinfo) entries
      → Once handle entries
      → lookup handle d.holds ≡ none
      → lookup handle (resume_entries H cfg entries d).holds ≡ recorded H cfg handle d.os
  unfolding resume_entries
  resume_entries-lookup [] handle d e all apart once free = absurd once
  resume_entries-lookup (other ∷ entries) handle d e (eo, all) (a, apart) (inl (same, later)) free =
      resume_entries_elsewhere entries handle _ later
      ∙ subst
          (λ name.
            lookup handle
              (resume_hold H cfg name (read_hold H (hold_path cfg.root name) d.os) d).holds
            ≡ recorded H cfg handle d.os)
          (sym same) (resume_hold-lookup handle _ d free)
  resume_entries-lookup (other ∷ entries) handle d e (eo, all) (a, apart) (inr (differs, once))
        free =
      let found = read_hold H (hold_path cfg.root other) d.os in
      resume_entries-lookup entries handle _ e all apart once
        (resume_hold_elsewhere other handle found d differs ∙ free)
      ∙ recorded-same handle d.os (resume_hold H cfg other found d).os
          (resume_hold_keeps_content other _ found d (λ p.
            let (_, holds_apart, _) = paths_apart cfg.root other handle eo e in
            differs (holds_apart p)))
          (resume_hold_keeps_content other _ found d a)
