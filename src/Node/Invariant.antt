-- ===== src/Node/Invariant.antt =====
-- What every call of the driver keeps: one hold for a handle, and a gauge that counts them.
use per_node_csi_driver.Prelude.{
  ◌≡◌, refl, Option, none, some, List, [], ◌∷◌, arith, Text, length, Bool, true, false, ◌||◌, inl,
  inr, if◌then◌else◌,
}
use per_node_csi_driver.Prelude.Exec.{Result, Result-cases, ok, err}
use per_node_csi_driver.Host.{Fault, Host, Hold}
use per_node_csi_driver.Map.{Map, lookup, NodupKeys, insert-NodupKeys, erase-NodupKeys}
use per_node_csi_driver.Metrics.{set_volumes, mount_failed, forget, record_bytes}
use per_node_csi_driver.Path.{join_path}
use per_node_csi_driver.Store.{holds_directory}
use per_node_csi_driver.Driver.{Driver, Settings, post}
use per_node_csi_driver.Holds.{keep_hold, drop_hold, report_volumes, resume_hold}
use per_node_csi_driver.Holds.{resume_entries, resume}
use per_node_csi_driver.Node.{PublishRequest, UnpublishRequest, StatsRequest, hold_for}
use per_node_csi_driver.Node.Publish.{
  mount, refuse, publish_mount, publish_held, node_publish_volume,
}
use per_node_csi_driver.Node.Unpublish.{clear_target, release, give_up, node_unpublish_volume}
use per_node_csi_driver.Node.Stats.{report_usage, stats_of_size, node_get_volume_stats}
use per_node_csi_driver.Sweep.{sweep_copy, sweep_copies, sweep, has}

-- The map of holds has every handle once, and the gauge `per_node_csi_volumes` is its size.
pub record IsSound {H : Host} (d : Driver H) : Type 0 where
  pub distinct : NodupKeys d.holds
  pub reported : d.readings.volumes ≡ length d.holds

module _ (H : Host) (cfg : Settings) where
  sweep_copy-IsSound :
      (handle : Text) (d : Driver H) → IsSound d → IsSound (sweep_copy H cfg handle d)
  unfolding sweep_copy forget
  sweep_copy-IsSound handle d v = ground arith

module _ (H : Host) (cfg : Settings) where
  keep_hold-IsSound :
      (handle : Text) (taken : Hold) (d : Driver H)
      → IsSound d
      → IsSound (keep_hold H cfg handle taken d)
  unfolding keep_hold report_volumes set_volumes
  keep_hold-IsSound handle taken d v = record {
    distinct = insert-NodupKeys handle taken d.holds v.distinct;
    reported = refl;
  }

  drop_hold-IsSound :
      (handle : Text) (d : Driver H) → NodupKeys d.holds → IsSound (drop_hold H cfg handle d)
  unfolding drop_hold report_volumes set_volumes
  drop_hold-IsSound handle d v = record {
    distinct = erase-NodupKeys handle d.holds v;
    reported = refl;
  }

  publish_mount-IsSound :
      (r : PublishRequest) (d : Driver H) → IsSound d → IsSound (publish_mount H cfg r d).1
  unfolding publish_mount refuse post mount_failed
  publish_mount-IsSound r d v =
      let after : Driver H = record d { os = (mount H cfg r d.os).1 } in
      let same : IsSound after = record { distinct = v.distinct; reported = v.reported } in
      ground (arith, keep_hold-IsSound r.volume_id (hold_for r) after same)

  publish_held-IsSound :
      (r : PublishRequest) (standing : Option Hold) (d : Driver H)
      → IsSound d
      → IsSound (publish_held H cfg r standing d).1
  unfolding publish_held refuse post
  publish_held-IsSound r none d v = publish_mount-IsSound r d v
  publish_held-IsSound r (some standing) d v = ground (arith, publish_mount-IsSound r d v)

  pub publish-IsSound :
      (r : PublishRequest) (d : Driver H) → IsSound d → IsSound (node_publish_volume H cfg r d).1
  unfolding node_publish_volume refuse post
  publish-IsSound r d v = ground (arith, publish_held-IsSound r (lookup r.volume_id d.holds) d v)

  release-IsSound :
      (handle : Text) (d : Driver H) → NodupKeys d.holds → IsSound (release H cfg handle d)
  unfolding release forget
  release-IsSound handle d v =
      let w = drop_hold-IsSound handle d v in
      record { distinct = w.distinct; reported = w.reported }

  give_up-IsSound :
      (r : UnpublishRequest) (standing : Option Hold) (d : Driver H)
      → IsSound d
      → IsSound (give_up H cfg r standing d)
  unfolding give_up
  give_up-IsSound r none d v = release-IsSound r.volume_id d v.distinct
  give_up-IsSound r (some standing) d v = ground (arith, release-IsSound r.volume_id d v.distinct)

  pub unpublish-IsSound :
      (r : UnpublishRequest) (d : Driver H)
      → IsSound d
      → IsSound (node_unpublish_volume H cfg r d).1
  unfolding node_unpublish_volume
  unpublish-IsSound r d v =
      let after : Driver H = record d { os = (clear_target H r.target_path d.os).1 } in
      let same : IsSound after = record { distinct = v.distinct; reported = v.reported } in
      ground (arith, give_up-IsSound r (lookup r.volume_id d.holds) after same)

  pub stats-IsSound :
      (r : StatsRequest) (d : Driver H) → IsSound d → IsSound (node_get_volume_stats H cfg r d).1
  unfolding node_get_volume_stats stats_of_size report_usage record_bytes
  stats-IsSound r d v = ground arith

  sweep_copies-IsSound :
      (named held : Map Bool) (copies : List Text) (d : Driver H)
      → IsSound d
      → IsSound (sweep_copies H cfg named held copies d)
  unfolding sweep_copies
  sweep_copies-IsSound named held [] d v = v
  sweep_copies-IsSound named held (handle ∷ copies) d v =
      sweep_copies-IsSound named held copies _ (choose (has named handle || has held handle))
    where
      choose : (b : Bool) → IsSound (if b then d else sweep_copy H cfg handle d)
      choose true = v
      choose false = sweep_copy-IsSound H cfg handle d v

  pub sweep-IsSound : (named : Map Bool) (d : Driver H) → IsSound d → IsSound (sweep H cfg named d)
  unfolding sweep
  sweep-IsSound named d v = sweep_copies-IsSound named _ _ d v

  resume_hold-distinct :
      (handle : Text) (read : Result Fault Hold) (d : Driver H)
      → NodupKeys d.holds
      → NodupKeys (resume_hold H cfg handle read d).holds
  unfolding resume_hold
  resume_hold-distinct handle (err fault) d v = (drop_hold-IsSound handle d v).distinct
  resume_hold-distinct handle (ok taken) d v =
      ground
        (arith, (drop_hold-IsSound handle d v).distinct, insert-NodupKeys handle taken d.holds v)

  resume_entries-distinct :
      (entries : List Text) (d : Driver H)
      → NodupKeys d.holds
      → NodupKeys (resume_entries H cfg entries d).holds
  unfolding resume_entries
  resume_entries-distinct [] d v = v
  resume_entries-distinct (handle ∷ entries) d v =
      resume_entries-distinct entries _ (resume_hold-distinct handle _ d v)

  -- `resume` may find the gauge behind the holds while it runs; at its end they agree.
  pub resume-IsSound : (d : Driver H) → IsSound d → IsSound (resume H cfg d)
  unfolding resume report_volumes set_volumes
  resume-IsSound d v =
      elim (Result-cases (H.read_dir (join_path (cfg.root ∷ holds_directory ∷ [])) d.os)) [
        | inl (entries, h) ↦
            rw h
              (record { distinct = resume_entries-distinct entries d v.distinct; reported = refl })
        | inr (fault, h) ↦ rw h v
      ]
