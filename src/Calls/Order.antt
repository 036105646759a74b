-- ===== src/Calls/Order.antt =====
-- The calls do not depend on the order in which the map of the holds keeps its entries.
pub mod Runs
use per_node_csi_driver.Prelude.{
  ◌≡◌, refl, ◌≢◌, sym, subst, ap, ◌∙◌, Bool, true, false, ◌||◌, Option, none, some, List, [], ◌∷◌,
  map, arith, Text, length, Bool-cases, inl, inr, Option-cases, ◌==◌, text_eq, if◌then◌else◌,
}
use per_node_csi_driver.Prelude.Exec.{Result, Result-cases, ok, err}
use per_node_csi_driver.Status.{Status}
use per_node_csi_driver.Handle.{check_handle}
use per_node_csi_driver.Metrics.{forget}
use per_node_csi_driver.Host.{Host, Hold}
use per_node_csi_driver.Map.{Map, lookup, insert, erase}
use per_node_csi_driver.Map.Same.{
  SameEntries, insert-SameEntries, erase-SameEntries, length-SameEntries,
}
use per_node_csi_driver.Driver.{Driver, Settings, post}
use per_node_csi_driver.Holds.{keep_hold, drop_hold, report_volumes, held_handles}
use per_node_csi_driver.Node.{PublishRequest, UnpublishRequest, StatsRequest, pod_in, hold_for}
use per_node_csi_driver.Node.Publish.{
  mount, refuse, publish_mount, publish_held, node_publish_volume,
}
use per_node_csi_driver.Node.Unpublish.{clear_target, give_up, release, node_unpublish_volume}
use per_node_csi_driver.Node.Stats.{node_get_volume_stats}
use per_node_csi_driver.Sweep.{has, handles_of, sweep_copy, sweep_copies, sweep}
use per_node_csi_driver.Sweep.Named.{has-held, has_free}
use per_node_csi_driver.Calls.{Call, publish, unpublish, stats, pass, call, run}

module _ {H : Host} where
  -- The same machine, metrics and Events, and the same holds in any order.
  abbrev pub Agree : Driver H → Driver H → Type 0
  Agree d e =
      (d.os ≡ e.os)
      × (d.readings ≡ e.readings)
      × (d.posted ≡ e.posted)
      × SameEntries d.holds e.holds

  -- The driver with the holds in another order.
  abbrev pub reordered : Map Hold → Driver H → Driver H
  reordered holds d = record d { holds = holds }

  pub Agree-reordered : (d e : Driver H) → Agree d e → reordered e.holds d ≡ e
  Agree-reordered d e (os, readings, posted, same) = cc

module _ (H : Host) (cfg : Settings) where
  keep_hold-Agree :
      (handle : Text) (taken : Hold) (d : Driver H) (n : Map Hold)
      → SameEntries d.holds n
      → Agree (keep_hold H cfg handle taken d) (keep_hold H cfg handle taken (reordered n d))
  unfolding keep_hold report_volumes
  keep_hold-Agree handle taken d n same =
      let kept = insert-SameEntries handle taken d.holds n same in
      (refl, rw (length-SameEntries _ _ kept) refl, refl, kept)

  drop_hold-Agree :
      (handle : Text) (d : Driver H) (n : Map Hold)
      → SameEntries d.holds n
      → Agree (drop_hold H cfg handle d) (drop_hold H cfg handle (reordered n d))
  unfolding drop_hold report_volumes
  drop_hold-Agree handle d n same =
      let kept = erase-SameEntries handle d.holds n same in
      (refl, rw (length-SameEntries _ _ kept) refl, refl, kept)

  -- What is returned is the same, and the driver but for the order.
  abbrev pub Alike : {A : Type 0} → A × Driver H → A × Driver H → Type 0
  Alike p q = (p.0 ≡ q.0) × Agree p.1 q.1

  publish_mount-Alike :
      (r : PublishRequest) (d : Driver H) (n : Map Hold)
      → SameEntries d.holds n
      → Alike (publish_mount H cfg r d) (publish_mount H cfg r (reordered n d))
  unfolding publish_mount refuse post
  publish_mount-Alike r d n same = elim (Result-cases (mount H cfg r d.os).0) [
    | inl (done, e) ↦ rw e (
      refl,
      keep_hold-Agree r.volume_id (hold_for r) (record d { os = (mount H cfg r d.os).1 }) n same,
    )
    | inr (s, e) ↦ rw e (refl, (refl, refl, refl, same))
  ]

  publish_held-Alike :
      (r : PublishRequest) (standing : Option Hold) (d : Driver H) (n : Map Hold)
      → SameEntries d.holds n
      → Alike (publish_held H cfg r standing d) (publish_held H cfg r standing (reordered n d))
  unfolding publish_held refuse post
  publish_held-Alike r none d n same = publish_mount-Alike r d n same
  publish_held-Alike r (some standing) d n same =
      elim (Bool-cases (standing.pod_uid == (pod_in r).uid)) [
        | inr other ↦ rw other (refl, (refl, refl, refl, same))
        | inl own ↦ elim (Bool-cases (standing.target == r.target_path)) [
          | inl there ↦ rw (own, there) (refl, (refl, refl, refl, same))
          | inr elsewhere ↦ rw (own, elsewhere) (publish_mount-Alike r d n same)
        ]
      ]

  pub node_publish_volume-Alike :
      (r : PublishRequest) (d : Driver H) (n : Map Hold)
      → SameEntries d.holds n
      → Alike (node_publish_volume H cfg r d) (node_publish_volume H cfg r (reordered n d))
  unfolding node_publish_volume refuse post
  node_publish_volume-Alike r d n same = elim (Result-cases (check_handle H.quoted r.volume_id)) [
    | inr (s, e) ↦ rw e (refl, (refl, refl, refl, same))
    | inl (done, e) ↦ elim (Bool-cases (r.target_path == [])) [
      | inl empty ↦ rw (e, empty) (refl, (refl, refl, refl, same))
      | inr named ↦
          rw (e, named, sym (same.2 r.volume_id))
            (publish_held-Alike r (lookup r.volume_id d.holds) d n same)
    ]
  ]

  release-Agree :
      (handle : Text) (d : Driver H) (n : Map Hold)
      → SameEntries d.holds n
      → Agree (release H cfg handle d) (release H cfg handle (reordered n d))
  unfolding release
  release-Agree handle d n same =
      let (os, readings, posted, kept) = drop_hold-Agree handle d n same in
      (os, ap (forget handle) readings, posted, kept)

  give_up-Agree :
      (r : UnpublishRequest) (standing : Option Hold) (d : Driver H) (n : Map Hold)
      → SameEntries d.holds n
      → Agree (give_up H cfg r standing d) (give_up H cfg r standing (reordered n d))
  unfolding give_up
  give_up-Agree r none d n same = release-Agree r.volume_id d n same
  give_up-Agree r (some standing) d n same = elim (Bool-cases (standing.target == r.target_path)) [
    | inr elsewhere ↦ rw elsewhere (refl, refl, refl, same)
    | inl there ↦ rw there (release-Agree r.volume_id d n same)
  ]

  pub node_unpublish_volume-Alike :
      (r : UnpublishRequest) (d : Driver H) (n : Map Hold)
      → SameEntries d.holds n
      → Alike (node_unpublish_volume H cfg r d) (node_unpublish_volume H cfg r (reordered n d))
  unfolding node_unpublish_volume
  node_unpublish_volume-Alike r d n same = elim (Bool-cases (r.volume_id == [])) [
    | inl empty ↦ rw empty (refl, (refl, refl, refl, same))
    | inr named ↦ elim (Bool-cases (r.target_path == [])) [
      | inl nowhere ↦ rw (named, nowhere) (refl, (refl, refl, refl, same))
      | inr there ↦ elim (Result-cases (clear_target H r.target_path d.os).0) [
        | inr (s, e) ↦ rw (named, there, e) (refl, (refl, refl, refl, same))
        | inl (done, e) ↦
            rw (named, there, e, sym (same.2 r.volume_id))
              (
                refl,
                give_up-Agree r (lookup r.volume_id d.holds)
                    (record d { os = (clear_target H r.target_path d.os).1 }) n same,
              )
      ]
    ]
  ]
