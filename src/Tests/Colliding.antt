-- ===== src/Tests/Colliding.antt =====
-- Goroutines that get in one another's way, on the machine whose store lists `db` and `old`.
use mathlib.Core.List.{Memᴰ}
use per_node_csi_driver.Prelude.{ℕ, ◌+◌, ◌≡◌, refl, false, none, List, [], ◌∷◌, length, text_beq}
use per_node_csi_driver.Prelude.Exec.{ok}
use per_node_csi_driver.Host.Memory.{remove_all}
use per_node_csi_driver.Map.{lookup, insert}
use per_node_csi_driver.Store.{copy_path, handles}
use per_node_csi_driver.Driver.{Driver}
use per_node_csi_driver.Node.{pod_in}
use per_node_csi_driver.Node.Publish.{node_publish_volume}
use per_node_csi_driver.Node.Publish.Outcome.{HeldAt}
use per_node_csi_driver.Calls.{publish, pass}
use per_node_csi_driver.Concurrent.Operations
use per_node_csi_driver.Concurrent.Operations.{serve}
use per_node_csi_driver.Concurrent.Schedule.{interleave}
use per_node_csi_driver.Prelude.{All}
use per_node_csi_driver.Concurrent.Races.Turns.{HasReturned}
use per_node_csi_driver.Concurrent.Races.{gauge_race, sweep_race}
use per_node_csi_driver.Tests.Opened.{publish_on}
use per_node_csi_driver.Tests.Data.{cfg, db, request, hold_of_b}
use per_node_csi_driver.Tests.Interleaving.{listing, listing-FileTable, running, old}

-- Nobody holds a handle.
abbrev free : Driver listing
free = record running { holds = [] }

nobody : lookup db free.holds ≡ none
unfolding lookup
nobody = refl

nobody_else : lookup old (insert db hold_of_b free.holds) ≡ none
unfolding lookup insert text_beq
nobody_else = refl

gauge_race_example :
    (turns : List ℕ) × (let (e, threads) = interleave turns free (
        Operations.keep_hold listing cfg db hold_of_b
        ∷ Operations.keep_hold listing cfg old hold_of_b
        ∷ []) in
      All HasReturned threads
      × (length e.holds ≡ length free.holds + 2)
      × (e.readings.volumes ≡ length free.holds + 1))
gauge_race_example = gauge_race listing cfg db old hold_of_b hold_of_b free nobody nobody_else

published : (node_publish_volume listing cfg request free).0 ≡ ok tt
unfolding publish_on
published = refl

copies : Memᴰ db (handles listing cfg.root (node_publish_volume listing cfg request free).1.os)
unfolding handles
copies = Memᴰ.head refl

sweep_race_example :
    (turns : List ℕ) × (let after =
        (interleave turns free
          (serve listing cfg (publish request) ∷ serve listing cfg (pass []) ∷ [])).0 in
      HeldAt (pod_in request).uid request.target_path (lookup db after.holds)
      × (listing-FileTable.is_there after.os (copy_path cfg.root db) ≡ false))
unfolding remove_all
sweep_race_example =
    sweep_race listing listing-FileTable cfg request [] free nobody (λ n. n) published copies
      (λ name s. refl)
