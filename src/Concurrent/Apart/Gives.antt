-- ===== src/Concurrent/Apart/Gives.antt =====
-- An unpublish whose handle nobody else takes or gives up meanwhile.
use per_node_csi_driver.Prelude.{
  ◌≡◌, refl, ◌⊎◌, inl, inr, Option, none, some, [], arith, ◌==◌, text_eq, text_beq_iff,
  text_beq_self, Bool-cases, subst, sym,
}
use per_node_csi_driver.Prelude.Exec.{Result, ok, err}
use per_node_csi_driver.Status.{Status}
use per_node_csi_driver.Host.{Host, Hold}
use per_node_csi_driver.Map.{lookup, erase, lookup-erase}
use per_node_csi_driver.Store.{hold_path}
use per_node_csi_driver.Driver.{Driver, Settings, on_readings}
use per_node_csi_driver.Node.{UnpublishRequest}
use per_node_csi_driver.Node.Unpublish.Release.{released}
use per_node_csi_driver.Lease.{IsOnlyAt}
use per_node_csi_driver.Concurrent.{Thread, ret, read, update, by_result, andthen}
use per_node_csi_driver.Holds.{holder}
use per_node_csi_driver.Metrics.{forget}
use per_node_csi_driver.Concurrent.Operations.{
  report_volumes, drop_hold, give_up, unpublish_held, node_unpublish_volume,
}
use per_node_csi_driver.Concurrent.Apart.{Leaves, Follows, Follows-andthen}
use per_node_csi_driver.Concurrent.Apart.Leaves.{
  hold_of, report_volumes-Leaves, clear_target-Leaves,
}

-- The hold before is still there, or it was this target's and is gone.
abbrev pub MayGive : UnpublishRequest → Option Hold → Option Hold → Type 0
MayGive r before now = (now ≡ before) ⊎ ((now ≡ none) × IsOnlyAt r.target_path before)

abbrev pub Gave : UnpublishRequest → Option Hold → Result Status Unit → Option Hold → Type 0
Gave r before (ok tt) now = now ≡ released r.target_path before
Gave r before (err s) now = now ≡ before

module _ (H : Host) (cfg : Settings) (r : UnpublishRequest) where
  abbrev pub Unpublishes :
      Option Hold → Option Hold → Thread (Driver H) (Result Status Unit) → Type 0
  Unpublishes before = Follows (hold_of r.volume_id) (MayGive r before) (Gave r before)

  -- A rest that leaves the hold alone, once the handle is given up.
  given_rest :
      {B : Type 0} (before : Option Hold) (m : Thread (Driver H) B)
      → MayGive r before none
      → released r.target_path before ≡ none
      → Leaves (hold_of r.volume_id) m
      → Unpublishes before none
          (andthen m (λ _. update (on_readings (forget r.volume_id)) (ret (ok tt))))
  unfolding andthen
  given_rest before m given gone h =
      Follows-andthen (hold_of r.volume_id) (MayGive r before) (Gave r before) none m _ given h
        (λ _.
          Follows-andthen (hold_of r.volume_id) (MayGive r before) (Gave r before) none
            (update (on_readings (forget r.volume_id)) (ret tt)) (λ _. ret (ok tt)) given
            (λ d. (refl, tt)) (λ _. (given, sym gone)))

  give_up-Unpublishes :
      (before : Option Hold)
      → MayGive r before none
      → released r.target_path before ≡ none
      → Unpublishes before before (give_up H cfg r)
  unfolding give_up drop_hold andthen
  give_up-Unpublishes before given gone = (
    inl refl,
    λ d e.
        subst
          (λ x. Unpublishes before x (
            andthen
              (report_volumes H (
                update (λ d. record d { os = (H.remove (hold_path cfg.root r.volume_id) d.os).1 })
                  (ret tt)))
              (λ _. update (on_readings (forget r.volume_id)) (ret (ok tt)))))
          (sym (erased d))
          (given_rest before _ given gone
            (report_volumes-Leaves H r.volume_id _ (λ e. (refl, tt)))),
  )
    where
      erased : (d : Driver H) → lookup r.volume_id (erase r.volume_id d.holds) ≡ none
      erased d =
          ground (arith, lookup-erase r.volume_id r.volume_id d.holds, text_beq_self r.volume_id)

  unpublish_held-Unpublishes :
      (before : Option Hold) → Unpublishes before before (unpublish_held H cfg r before)
  unfolding unpublish_held
  unpublish_held-Unpublishes none = give_up-Unpublishes none (inl refl) refl
  unpublish_held-Unpublishes (some standing) =
      elim (Bool-cases (standing.target == r.target_path)) [
        | inr elsewhere ↦ rw elsewhere (inl refl, sym (rw elsewhere refl))
        | inl there ↦ rw there (
            give_up-Unpublishes (some standing)
              (inr (refl, (text_beq_iff standing.target r.target_path).0 there)) (rw there refl))
      ]

  pub node_unpublish_volume-Unpublishes :
      (before : Option Hold) → Unpublishes before before (node_unpublish_volume H cfg r)
  unfolding node_unpublish_volume
  node_unpublish_volume-Unpublishes before = elim (Bool-cases (r.volume_id == [])) [
    | inl empty ↦ rw empty (inl refl, refl)
    | inr named ↦ elim (Bool-cases (r.target_path == [])) [
      | inl nowhere ↦ rw (named, nowhere) (inl refl, refl)
      | inr there ↦
          rw (named, there)
            (Follows-andthen (hold_of r.volume_id) (MayGive r before) (Gave r before) before _ _
              (inl refl) (clear_target-Leaves H cfg r.volume_id r.target_path) cleared)
    ]
  ]
    where
      cleared :
          (result : Result Status Unit)
          → Unpublishes before before (
              by_result
                (λ _. read (holder r.volume_id) (unpublish_held H cfg r))
                (λ s. ret (err s))
                result)
      cleared (err s) = (inl refl, refl)
      cleared (ok tt) = (
        inl refl,
        λ d e.
            subst (λ x. Unpublishes before x (unpublish_held H cfg r x)) (sym e)
              (unpublish_held-Unpublishes before),
      )
