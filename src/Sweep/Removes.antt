-- ===== src/Sweep/Removes.antt =====
-- Which copies a sweep removes, and which it keeps.
use mathlib.Core.List.{Memᴰ}
use per_node_csi_driver.Prelude.{
  ◌≡◌, refl, ◌≢◌, sym, ◌∙◌, subst, ◌⊎◌, inl, inr, Bool, true, false, ◌||◌,
}
use per_node_csi_driver.Prelude.{none, some, List, [], ◌∷◌, arith, Text, All, text_eq}
use per_node_csi_driver.Prelude.{Bool-cases, if◌then◌else◌}
use per_node_csi_driver.Prelude.Exec.{ok}
use per_node_csi_driver.Handle.Check.{IsElement}
use per_node_csi_driver.Host.{Host, Hold}
use per_node_csi_driver.Host.Files.{FileTable}
use per_node_csi_driver.Map.{Map, lookup}
use per_node_csi_driver.Store.{copy_path, handles, remove_copy}
use per_node_csi_driver.Driver.{Driver, Settings}
use per_node_csi_driver.Holds.{held_handles}
use per_node_csi_driver.Sweep.Named.{
  IsNamed, handles_of_iff, has-held, has_free, IsWithin, IsWithin-unique,
}
use per_node_csi_driver.Sweep.{Cached, handles_of}
use per_node_csi_driver.Sweep.{has, sweep_copy, sweep_copies, sweep}

module _ (H : Host) (F : FileTable H) (cfg : Settings) where
  open F use {is_there}

  sweep_copy-keeps :
      (handle j : Text) (d : Driver H) (path : Text)
      → IsElement handle
      → IsElement j
      → IsWithin cfg.root j path
      → handle ≢ j
      → is_there (sweep_copy H cfg handle d).os path ≡ is_there d.os path
  unfolding sweep_copy remove_copy
  sweep_copy-keeps handle j d path eh ej w differs = ground (
    arith,
    F.remove_all_elsewhere (copy_path cfg.root handle) path d.os
        (λ e. differs (IsWithin-unique cfg.root handle j path eh ej (inl (sym e)) w))
        (λ b. differs (IsWithin-unique cfg.root handle j path eh ej (inr b) w)),
  )

  -- One round of the loop of `sweep`.
  sweep_turn-keeps :
      (named held : Map Bool) (handle j : Text) (d : Driver H) (path : Text)
      → IsElement handle
      → IsElement j
      → IsWithin cfg.root j path
      → (has named j || has held j) ≡ true
      → is_there
          (if has named handle || has held handle then d else sweep_copy H cfg handle d).os
          path
        ≡ is_there d.os path
  sweep_turn-keeps named held handle j d path eh ej w kept =
      elim (Bool-cases (has named handle || has held handle)) [
        | inl skip ↦ rw skip refl
        | inr go ↦ rw go (sweep_copy-keeps handle j d path eh ej w (λ e. cc))
      ]

  sweep_copies-keeps :
      (named held : Map Bool) (copies : List Text) (j : Text) (d : Driver H) (path : Text)
      → All IsElement copies
      → IsElement j
      → IsWithin cfg.root j path
      → (has named j || has held j) ≡ true
      → is_there (sweep_copies H cfg named held copies d).os path ≡ is_there d.os path
  unfolding sweep_copies
  sweep_copies-keeps named held [] j d path all ej w kept = refl
  sweep_copies-keeps named held (handle ∷ copies) j d path (eh, all) ej w kept =
      sweep_copies-keeps named held copies j _ path all ej w kept
      ∙ sweep_turn-keeps named held handle j d path eh ej w kept

  -- A sweep removes nothing of the copy of a handle that a PersistentVolume of this driver names, or
  -- that a pod on this node holds: whatever was there of the copy and below it is there still. The
  -- handle, and what the directory of the copies lists, are names of entries.
  pub sweep-keeps :
      (objects : List Cached) (j : Text) (d : Driver H) (path : Text)
      → All IsElement (handles H cfg.root d.os)
      → IsElement j
      → IsWithin cfg.root j path
      → IsNamed j objects ⊎ ((standing : Hold) × (lookup j d.holds ≡ some standing))
      → is_there (sweep H cfg (handles_of objects) d).os path ≡ is_there d.os path
  unfolding sweep held_handles
  sweep-keeps objects j d path all ej w (inl n) =
      sweep_copies-keeps (handles_of objects) _ _ j d path all ej w
        (ground (arith, (handles_of_iff j objects).1 n))
  sweep-keeps objects j d path all ej w (inr (standing, held)) =
      sweep_copies-keeps (handles_of objects) _ _ j d path all ej w
        (ground (arith, has-held j d.holds standing held))

  sweep_copies_gone :
      (named held : Map Bool) (copies : List Text) (d : Driver H) (path : Text)
      → is_there d.os path ≡ false
      → is_there (sweep_copies H cfg named held copies d).os path ≡ false
  unfolding sweep_copies sweep_copy remove_copy
  sweep_copies_gone named held [] d path gone = gone
  sweep_copies_gone named held (handle ∷ copies) d path gone =
      sweep_copies_gone named held copies _ path
        (ground (arith, F.remove_all_creates_nothing (copy_path cfg.root handle) path d.os gone))

  sweep_turn-removes :
      (named held : Map Bool) (handle j : Text) (d : Driver H)
      → handle ≡ j
      → ((name : Text) (s : H.State) → (H.remove_all name s).0 ≡ ok tt)
      → (has named j || has held j) ≡ false
      → is_there
          (if has named handle || has held handle then d else sweep_copy H cfg handle d).os
          (copy_path cfg.root j)
        ≡ false
  unfolding sweep_copy remove_copy
  sweep_turn-removes named held handle j d e removes gone =
      subst
        (λ h.
          is_there (if has named h || has held h then d else sweep_copy H cfg h d).os
            (copy_path cfg.root j)
          ≡ false)
        (sym e)
        (rw gone (
          ground (
            arith,
            removes (copy_path cfg.root j) d.os,
            F.remove_all_ok (copy_path cfg.root j) d.os,
          )))

  pub sweep_copies-removes :
      (named held : Map Bool) (copies : List Text) (j : Text) (d : Driver H)
      → ((name : Text) (s : H.State) → (H.remove_all name s).0 ≡ ok tt)
      → Memᴰ j copies
      → (has named j || has held j) ≡ false
      → is_there (sweep_copies H cfg named held copies d).os (copy_path cfg.root j) ≡ false
  unfolding sweep_copies
  sweep_copies-removes named held [] j d removes m gone = elim m [ ]
  sweep_copies-removes named held (handle ∷ copies) j d removes (Memᴰ.head e) gone =
      sweep_copies_gone named held copies _ (copy_path cfg.root j)
        (sweep_turn-removes named held handle j d (sym e) removes gone)
  sweep_copies-removes named held (handle ∷ copies) j d removes (Memᴰ.tail m) gone =
      sweep_copies-removes named held copies j _ removes m gone

  -- A sweep removes the copy of every listed handle that no PersistentVolume of this driver names
  -- and no pod on this node holds, where the kernel refuses no removal.
  pub sweep-removes :
      (objects : List Cached) (j : Text) (d : Driver H)
      → ((name : Text) (s : H.State) → (H.remove_all name s).0 ≡ ok tt)
      → Memᴰ j (handles H cfg.root d.os)
      → ¬ IsNamed j objects
      → lookup j d.holds ≡ none
      → is_there (sweep H cfg (handles_of objects) d).os (copy_path cfg.root j) ≡ false
  unfolding sweep held_handles
  sweep-removes objects j d removes m unnamed free =
      sweep_copies-removes (handles_of objects) _ _ j d removes m
        (ground (arith, has_free j d.holds free, handles_of_iff j objects, unnamed))
