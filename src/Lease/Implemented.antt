-- ===== src/Lease/Implemented.antt =====
-- The calls of the driver keep the promise of the leases.
use mathlib.Core.Path.{fun_ext}
use per_node_csi_driver.Prelude.{
  ◌≡◌, refl, ap, sym, ◌∙◌, subst, ◌⊎◌, inl, inr, Option, none, some, List, [], ◌∷◌, arith, text_eq,
  text_beq_iff,
}
use per_node_csi_driver.Host.{Host, Hold}
use per_node_csi_driver.Map.{Map, lookup, insert, erase, lookup-insert, lookup-erase}
use per_node_csi_driver.Driver.{Driver, Settings, post}
use per_node_csi_driver.Holds.{keep_hold, drop_hold, report_volumes}
use per_node_csi_driver.Node.{PublishRequest, UnpublishRequest, pod_in, hold_for}
use per_node_csi_driver.Node.Publish.{node_publish_volume, publish_held, publish_mount, refuse}
use per_node_csi_driver.Node.Unpublish.{node_unpublish_volume, give_up, release}
use per_node_csi_driver.Sweep.{sweep, handles_of}
use per_node_csi_driver.Calls.{Call, publish, unpublish, stats, pass, call, run}
use per_node_csi_driver.Calls.Reached.{stats-holds, sweep_copies-holds}
use per_node_csi_driver.Lease.{
  Leases, IsFreeFor, IsOnlyAt, Grant, Step, Steps, stays, takes, gives_back, no_more, next, nothing,
  take, give_back,
}

-- What the call may do: a publish takes its handle for its pod, and an unpublish gives its handle
-- back at its target.
abbrev pub IsOf : Call → Grant → Type 0
IsOf c nothing = Unit
IsOf (publish r) (take handle lease) = (handle ≡ r.volume_id) × (lease ≡ hold_for r)
IsOf (unpublish r) (give_back handle target) = (handle ≡ r.volume_id) × (target ≡ r.target_path)
IsOf c other = ⊥

abbrev pub AreOf : List Call → List Grant → Type 0
AreOf [] [] = Unit
AreOf (c ∷ calls) (g ∷ grants) = IsOf c g × AreOf calls grants
AreOf calls grants = ⊥

abbrev pub leases_of : Map Hold → Leases
leases_of holds handle = lookup handle holds

module _ (H : Host) (cfg : Settings) where
  publish-cases :
      (r : PublishRequest) (d : Driver H)
      → let e = (node_publish_volume H cfg r d).1 in
        (e.holds ≡ d.holds)
        ⊎ ((e.holds ≡ insert r.volume_id (hold_for r) d.holds)
            × IsFreeFor (hold_for r).pod_uid (lookup r.volume_id d.holds))
  unfolding node_publish_volume publish_held publish_mount refuse post keep_hold report_volumes
      hold_for
  publish-cases r d = by_holder (lookup r.volume_id d.holds) refl
    where
      by_holder :
          (standing : Option Hold)
          → lookup r.volume_id d.holds ≡ standing
          → let e = (node_publish_volume H cfg r d).1 in
            (e.holds ≡ d.holds)
            ⊎ ((e.holds ≡ insert r.volume_id (hold_for r) d.holds)
                × IsFreeFor (hold_for r).pod_uid (lookup r.volume_id d.holds))
      by_holder none e = ground arith
      by_holder (some standing) e = ground (arith, text_beq_iff standing.pod_uid (pod_in r).uid)

  unpublish-cases :
      (r : UnpublishRequest) (d : Driver H)
      → let e = (node_unpublish_volume H cfg r d).1 in
        (e.holds ≡ d.holds)
        ⊎ ((e.holds ≡ erase r.volume_id d.holds)
            × IsOnlyAt r.target_path (lookup r.volume_id d.holds))
  unfolding node_unpublish_volume give_up release drop_hold report_volumes
  unpublish-cases r d = by_holder (lookup r.volume_id d.holds) refl
    where
      by_holder :
          (standing : Option Hold)
          → lookup r.volume_id d.holds ≡ standing
          → let e = (node_unpublish_volume H cfg r d).1 in
            (e.holds ≡ d.holds)
            ⊎ ((e.holds ≡ erase r.volume_id d.holds)
                × IsOnlyAt r.target_path (lookup r.volume_id d.holds))
      by_holder none e = ground arith
      by_holder (some standing) e = ground (arith, text_beq_iff standing.target r.target_path)

  Does : Call → Map Hold → Map Hold → Type 0
  Does c before after = (g : Grant) × Step g (leases_of before) (leases_of after) × IsOf c g

  Does-nothing : (c : Call) (before after : Map Hold) → after ≡ before → Does c before after
  unfolding Does
  Does-nothing c before after same = (
    Grant.nothing,
    subst (λ x. Step Grant.nothing (leases_of before) (leases_of x)) (sym same) stays,
    tt,
  )

  call-Does : (c : Call) (d : Driver H) → Does c d.holds (call H cfg c d).holds
  unfolding call sweep Does
  call-Does (publish r) d = elim (publish-cases r d) [
    | inl same ↦ Does-nothing (publish r) _ _ same
    | inr (taken, free) ↦ (
      Grant.take r.volume_id (hold_for r),
      subst (Step _ (leases_of d.holds))
          (fun_ext
            (λ k. sym (ap (lookup k) taken ∙ lookup-insert r.volume_id k (hold_for r) d.holds)))
          (takes r.volume_id (hold_for r) free),
      (refl, refl),
    )
  ]
  call-Does (unpublish r) d = elim (unpublish-cases r d) [
    | inl same ↦ Does-nothing (unpublish r) _ _ same
    | inr (given, only) ↦ (
      Grant.give_back r.volume_id r.target_path,
      subst (Step _ (leases_of d.holds))
          (fun_ext (λ k. sym (ap (lookup k) given ∙ lookup-erase r.volume_id k d.holds)))
          (gives_back r.volume_id r.target_path only),
      (refl, refl),
    )
  ]
  call-Does (stats r) d = Does-nothing (stats r) _ _ (stats-holds H cfg r d)
  call-Does (pass objects) d =
      Does-nothing (pass objects) _ _ (sweep_copies-holds H cfg (handles_of objects) _ _ d)

  -- Calls, one after the other, are steps of the leases, one for each call: a publish takes its
  -- handle for its pod only if nobody else has it, an unpublish gives its handle back only if nobody
  -- has it at another target, and nothing else changes a lease.
  pub run-Steps :
      (calls : List Call) (d : Driver H)
      → (grants : List Grant) × Steps grants
          (leases_of d.holds)
          (leases_of (run H cfg calls d).holds)
        × AreOf calls grants
  unfolding run Does
  run-Steps [] d = ([], no_more, tt)
  run-Steps (c ∷ calls) d =
      let (g, step, of) = call-Does c d in
      let (grants, steps, all) = run-Steps calls (call H cfg c d) in
      (g ∷ grants, next step steps, (of, all))
