-- ===== src/Calls/Reached.antt =====
-- What holds after any calls at all.
use per_node_csi_driver.Prelude.{◌≡◌, refl, ◌∙◌, Bool, List, [], ◌∷◌}
use per_node_csi_driver.Prelude.{arith, Text, text_eq}
use per_node_csi_driver.Host.{Host}
use per_node_csi_driver.Map.{Map}
use per_node_csi_driver.Driver.{Driver, Settings}
use per_node_csi_driver.Node.{StatsRequest}
use per_node_csi_driver.Node.Stats.{report_usage, stats_of_size, node_get_volume_stats}
use per_node_csi_driver.Node.Invariant.{IsSound, publish-IsSound, unpublish-IsSound, stats-IsSound}
use per_node_csi_driver.Node.Invariant.{sweep-IsSound, resume-IsSound}
use per_node_csi_driver.Sweep.{sweep_copy, sweep_copies}
use per_node_csi_driver.Calls.{Call, publish, unpublish, stats, pass, new_node, start, call, run}

module _ (H : Host) (cfg : Settings) where
  call-IsSound : (c : Call) (d : Driver H) → IsSound d → IsSound (call H cfg c d)
  unfolding call
  call-IsSound (publish r) d v = publish-IsSound H cfg r d v
  call-IsSound (unpublish r) d v = unpublish-IsSound H cfg r d v
  call-IsSound (stats r) d v = stats-IsSound H cfg r d v
  call-IsSound (pass objects) d v = sweep-IsSound H cfg _ d v

  run_from-IsSound : (calls : List Call) (d : Driver H) → IsSound d → IsSound (run H cfg calls d)
  unfolding run
  run_from-IsSound [] d v = v
  run_from-IsSound (c ∷ calls) d v = run_from-IsSound calls _ (call-IsSound c d v)

  new_node-IsSound : (s : H.State) → IsSound (new_node {H = H} s)
  unfolding new_node
  new_node-IsSound s = record { distinct = tt; reported = refl }

  -- From the start of the driver on any machine, and after any calls, one after the other, whatever
  -- the kernel answers them, no handle has two holds and the gauge of the volumes is the number of the holds.
  pub run-IsSound : (calls : List Call) (s : H.State) → IsSound (run H cfg calls (start H cfg s))
  unfolding start
  run-IsSound calls s =
      run_from-IsSound calls _ (resume-IsSound H cfg (new_node s) (new_node-IsSound s))

  pub stats-holds :
      (r : StatsRequest) (d : Driver H) → (node_get_volume_stats H cfg r d).1.holds ≡ d.holds
  unfolding node_get_volume_stats stats_of_size report_usage
  stats-holds r d = ground arith

  pub sweep_copies-holds :
      (named held : Map Bool) (copies : List Text) (d : Driver H)
      → (sweep_copies H cfg named held copies d).holds ≡ d.holds
  unfolding sweep_copies sweep_copy
  sweep_copies-holds named held [] d = refl
  sweep_copies-holds named held (handle ∷ copies) d =
      sweep_copies-holds named held copies _ ∙ ground arith
