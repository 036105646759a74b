-- ===== src/Concurrent/Operations/Alone.antt =====
-- A goroutine that nothing comes between does what the call does in one step.
pub mod Publishing
use per_node_csi_driver.Prelude.{
  ◌≡◌, refl, ◌∙◌, ap, Bool, Option, none, some, List, [], ◌∷◌, arith, Text,
}
use per_node_csi_driver.Prelude.{text_eq}
use per_node_csi_driver.Prelude.Exec.{Result, ok, err, handle, resume_with, raise, ◌>>◌}
use per_node_csi_driver.Status.{Status}
use per_node_csi_driver.Host.{Fault, Host, Hold}
use per_node_csi_driver.Map.{Map, lookup}
use per_node_csi_driver.Mount
use per_node_csi_driver.Store.{make_copy, copy_path, remove_copy}
use per_node_csi_driver.Driver.{Driver, Settings, on_host}
use per_node_csi_driver.Holds
use per_node_csi_driver.Node.{PublishRequest, UnpublishRequest, hold_for}
use per_node_csi_driver.Node.Publish
use per_node_csi_driver.Metrics.{mount_failed, forget}
use per_node_csi_driver.Events.{Reason}
use per_node_csi_driver.Driver.{does, on_readings}
use per_node_csi_driver.Holds.{holder}
use per_node_csi_driver.Concurrent.{ret, read, alone, andthen, alone-andthen, by_result}
use per_node_csi_driver.Node.Unpublish
use per_node_csi_driver.Node.Stats
use per_node_csi_driver.Node.{StatsRequest, Usage}
use per_node_csi_driver.Sweep
use per_node_csi_driver.Sweep.{has, handles_of}
use per_node_csi_driver.Calls
use per_node_csi_driver.Calls.{Call, publish, unpublish, stats, pass}
use per_node_csi_driver.Concurrent.Operations.{
  give_up, unpublish_held, node_unpublish_volume, sweep_copies, sweep, report_usage,
  node_get_volume_stats, serve, bind_read_write, bind_read_only, bind, unbind, report_volumes,
  write_hold, keep_hold, drop_hold, mount, refuse, publish_mounted, publish_mount, publish_held,
  clear_target, node_publish_volume,
}
use per_node_csi_driver.Concurrent.Operations.Alone.Publishing.{
  alone-unbind, alone-drop_hold, alone-node_publish_volume,
}

-- What `serve` returns of the answer to NodeGetVolumeStats.
abbrev without_usage : Result Status Usage → Result Status Unit
without_usage result = by_result (λ _. ok tt) err result

module _ (H : Host) (cfg : Settings) where
  -- What the goroutine of the call returns.
  abbrev Answers : Call → Result Status Unit → Driver H → Type 0
  Answers (publish r) result d = result ≡ (Publish.node_publish_volume H cfg r d).0
  Answers (unpublish r) result d = result ≡ (Unpublish.node_unpublish_volume H cfg r d).0
  Answers (stats r) result d = result ≡ without_usage (Stats.node_get_volume_stats H cfg r d).0
  Answers (pass objects) result d = result ≡ ok tt

  alone-clear_target :
      (target : Text) (d : Driver H)
      → alone (clear_target H cfg target) d ≡ on_host (Unpublish.clear_target H target) d
  unfolding alone andthen clear_target unbind Unpublish.clear_target Mount.unbind
      Unpublish.remove_target
  alone-clear_target target d = ground arith

  alone-give_up :
      (r : UnpublishRequest) (d : Driver H)
      → alone (give_up H cfg r) d ≡ (ok tt, Unpublish.release H cfg r.volume_id d)
  unfolding alone give_up Unpublish.release
  alone-give_up r d =
      alone-andthen (drop_hold H cfg r.volume_id) _ d
      ∙ ap (λ p. (ok tt, on_readings (forget r.volume_id) p.1))
          (alone-drop_hold H cfg r.volume_id d)

  alone-unpublish_held :
      (r : UnpublishRequest) (standing : Option Hold) (d : Driver H)
      → alone (unpublish_held H cfg r standing) d ≡ (ok tt, Unpublish.give_up H cfg r standing d)
  unfolding alone unpublish_held Unpublish.give_up
  alone-unpublish_held r none d = alone-give_up r d
  alone-unpublish_held r (some standing) d = ground (arith, alone-give_up r d)

  alone-unpublish_cleared :
      (r : UnpublishRequest) (result : Result Status Unit) (d : Driver H)
      → alone
          (by_result
            (λ _. read (holder r.volume_id) (unpublish_held H cfg r))
            (λ s. ret (err s))
            result)
          d
        ≡ resume_with result
            (λ _. does (λ e. Unpublish.give_up H cfg r (holder r.volume_id e) e))
            raise
            d
  unfolding alone
  alone-unpublish_cleared r (ok tt) d = alone-unpublish_held r (lookup r.volume_id d.holds) d
  alone-unpublish_cleared r (err s) d = refl

  alone-unpublish_clearing :
      (r : UnpublishRequest) (d : Driver H)
      → alone
          (andthen (clear_target H cfg r.target_path) (
            by_result (λ _. read (holder r.volume_id) (unpublish_held H cfg r)) (λ s. ret (err s))))
          d
        ≡ handle
            (on_host (Unpublish.clear_target H r.target_path))
            (λ _. does (λ e. Unpublish.give_up H cfg r (holder r.volume_id e) e))
            raise
            d
  alone-unpublish_clearing r d =
      alone-andthen (clear_target H cfg r.target_path) _ d
      ∙ ap
          (λ p.
            alone
              (by_result (λ _. read (holder r.volume_id) (unpublish_held H cfg r))
                (λ s. ret (err s)) p.0)
              p.1)
          (alone-clear_target r.target_path d)
      ∙ alone-unpublish_cleared r _ _

  alone-node_unpublish_volume :
      (r : UnpublishRequest) (d : Driver H)
      → alone (node_unpublish_volume H cfg r) d ≡ Unpublish.node_unpublish_volume H cfg r d
  unfolding alone node_unpublish_volume Unpublish.node_unpublish_volume
  alone-node_unpublish_volume r d = ground (arith, alone-unpublish_clearing r d)

  pub alone-sweep_copies :
      (named held : Map Bool) (copies : List Text) (d : Driver H)
      → alone (sweep_copies H cfg named held copies) d
        ≡ (ok tt, Sweep.sweep_copies H cfg named held copies d)
  unfolding alone sweep_copies Sweep.sweep_copies Sweep.sweep_copy remove_copy
  alone-sweep_copies named held [] d = refl
  alone-sweep_copies named held (handle ∷ copies) d =
      let removed : Driver H = record d {
        os = (H.remove_all (copy_path cfg.root handle) d.os).1;
      } in
      ground (
        arith,
        alone-sweep_copies named held copies d,
        alone-sweep_copies named held copies removed,
        alone-sweep_copies named held copies (on_readings (forget handle) removed),
      )

  alone-node_get_volume_stats :
      (r : StatsRequest) (d : Driver H)
      → alone (node_get_volume_stats H cfg r) d ≡ Stats.node_get_volume_stats H cfg r d
  unfolding alone node_get_volume_stats report_usage Stats.node_get_volume_stats Stats.stats_of_size
      Stats.report_usage
  alone-node_get_volume_stats r d = ground arith

  pub alone-sweep :
      (named : Map Bool) (d : Driver H)
      → alone (sweep H cfg named) d ≡ (ok tt, Sweep.sweep H cfg named d)
  unfolding alone sweep Sweep.sweep
  alone-sweep named d = alone-sweep_copies named _ _ d

  alone-stats :
      (r : StatsRequest) (d : Driver H)
      → alone (serve H cfg (stats r)) d ≡ (
        without_usage (Stats.node_get_volume_stats H cfg r d).0,
        (Stats.node_get_volume_stats H cfg r d).1,
      )
  unfolding serve alone
  alone-stats r d =
      alone-andthen (node_get_volume_stats H cfg r) _ d
      ∙ ap (λ p. (without_usage p.0, p.1)) (alone-node_get_volume_stats r d)

  -- The goroutine of every call, and of every pass of the sweep, that nothing comes between leaves
  -- the state that the call leaves in one step, and returns what the call returns; of a usage it
  -- returns that there is one.
  alone-serve :
      (c : Call) (d : Driver H)
      → ((alone (serve H cfg c) d).1 ≡ Calls.call H cfg c d)
        × Answers c (alone (serve H cfg c) d).0 d
  unfolding serve Calls.call
  alone-serve (publish r) d =
      let p = alone-node_publish_volume H cfg r d in (ap (λ x. x.1) p, ap (λ x. x.0) p)
  alone-serve (unpublish r) d =
      let p = alone-node_unpublish_volume r d in (ap (λ x. x.1) p, ap (λ x. x.0) p)
  alone-serve (stats r) d = let p = alone-stats r d in (ap (λ x. x.1) p, ap (λ x. x.0) p)
  alone-serve (pass objects) d =
      let p = alone-sweep (handles_of objects) d in (ap (λ x. x.1) p, ap (λ x. x.0) p)
