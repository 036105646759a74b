-- ===== src/Concurrent/Apart/Elsewhere.antt =====
-- The calls for other handles, and the sweep, leave the hold of a handle alone.
use per_node_csi_driver.Prelude.{
  ℕ, refl, ◌≢◌, Bool, ◌||◌, List, [], ◌∷◌, Text, ◌==◌, text_eq, map, All,
}
use per_node_csi_driver.Prelude.Exec.{Result, ok, err}
use per_node_csi_driver.Host.{Fault, Host}
use per_node_csi_driver.Map.{Map}
use per_node_csi_driver.Store.{copy_path, remove_copy, copy_size, space_of}
use per_node_csi_driver.Driver.{Driver, Settings}
use per_node_csi_driver.Node.{StatsRequest, no_copy}
use per_node_csi_driver.Sweep.{has, handles_of}
use per_node_csi_driver.Calls.{Call, publish, unpublish, stats, pass}
use per_node_csi_driver.Concurrent.{Thread, ret, read}
use per_node_csi_driver.Concurrent.Operations.{
  sweep_copies, sweep, report_usage, node_get_volume_stats, serve,
}
use per_node_csi_driver.Concurrent.Apart.{Leaves, Leaves-andthen, Leaves-by_result, Leaves-if}
use per_node_csi_driver.Concurrent.Apart.Leaves.{
  hold_of, node_publish_volume-Leaves, node_unpublish_volume-Leaves,
}

module _ (H : Host) (cfg : Settings) (j : Text) where
  abbrev W : {A : Type 0} → Thread (Driver H) A → Type 0
  W m = Leaves (hold_of j) m

  sweep_copies-Leaves :
      (named held : Map Bool) (copies : List Text) → W (sweep_copies H cfg named held copies)
  unfolding sweep_copies
  sweep_copies-Leaves named held [] = tt
  sweep_copies-Leaves named held (handle ∷ copies) =
      let rest = sweep_copies-Leaves named held copies in
      Leaves-if (hold_of j) (has named handle || has held handle) _ _ rest (λ d. (
        refl,
        Leaves-by_result (hold_of j) _ _ (λ a e. (refl, rest)) (λ fault. rest)
            (remove_copy H cfg.root handle d.os).0,
      ))

  sweep-Leaves : (named : Map Bool) → W (sweep H cfg named)
  unfolding sweep
  sweep-Leaves named = λ d. (refl, λ e. (refl, sweep_copies-Leaves named _ _))

  report_usage-Leaves :
      (handle : Text) (used : ℕ) (space : Result Fault (ℕ × ℕ))
      → W (report_usage H cfg handle used space)
  unfolding report_usage
  report_usage-Leaves handle used (err fault) = tt
  report_usage-Leaves handle used (ok (available, total)) = λ d. (refl, tt)

  stats-Leaves : (r : StatsRequest) → W (serve H cfg (stats r))
  unfolding serve node_get_volume_stats
  stats-Leaves r =
      Leaves-andthen (hold_of j) _ _
        (Leaves-if (hold_of j) (r.volume_id == []) _ _ tt (
          Leaves-if (hold_of j) (r.volume_path == []) _ _ tt (λ d. (
            refl,
            Leaves-by_result (hold_of j)
                (λ used. read (λ e. space_of H cfg.root e.os) (report_usage H cfg r.volume_id used))
                (λ fault. ret (err (no_copy r.volume_id cfg.node_id fault)))
                (λ used e. (refl, report_usage-Leaves r.volume_id used (space_of H cfg.root e.os)))
                (λ fault. tt) (copy_size H (copy_path cfg.root r.volume_id) d.os),
          ))))
        (λ result. tt)

  -- The call neither takes nor gives up the handle.
  abbrev pub IsElsewhere : Call → Type 0
  IsElsewhere (publish r) = r.volume_id ≢ j
  IsElsewhere (unpublish r) = r.volume_id ≢ j
  IsElsewhere (stats r) = Unit
  IsElsewhere (pass objects) = Unit

  pub serve-Leaves : (c : Call) → IsElsewhere c → W (serve H cfg c)
  unfolding serve
  serve-Leaves (publish r) other = node_publish_volume-Leaves H cfg j r other
  serve-Leaves (unpublish r) other = node_unpublish_volume-Leaves H cfg j r other
  serve-Leaves (stats r) other = stats-Leaves r
  serve-Leaves (pass objects) other = sweep-Leaves (handles_of objects)

  pub serve-All_leave :
      (calls : List Call) → All IsElsewhere calls → All W (map (serve H cfg) calls)
  serve-All_leave [] all = tt
  serve-All_leave (c ∷ calls) (other, all) = (serve-Leaves c other, serve-All_leave calls all)
