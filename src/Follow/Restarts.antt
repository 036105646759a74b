-- ===== src/Follow/Restarts.antt =====
-- The counter of the watches that were opened again.
use per_node_csi_driver.Prelude.{ℕ, ◌+◌, ◌-◌, ◌≡◌, true, false, List, [], ◌∷◌, arith}
use per_node_csi_driver.Prelude.{text_beq_self}
use per_node_csi_driver.Prelude.Exec.{Result, ok, err}
use per_node_csi_driver.Host.{Fault}
use per_node_csi_driver.Map.{lookup, lookup-insert}
use per_node_csi_driver.Metrics.{Readings, count_of, increment, watch_restarted}
use per_node_csi_driver.Follow.{watched_kind, open_watch, open_watches}

-- The watches that the API server accepted.
abbrev pub accepted : List (Result Fault Unit) → ℕ
accepted [] = 0
accepted (err fault ∷ answers) = accepted answers
accepted (ok tt ∷ answers) = accepted answers + 1

abbrev pub restarts : Readings → ℕ
restarts m = count_of (lookup watched_kind m.watch_restarts)

watch_restarted-restarts :
    (m : Readings) → restarts (watch_restarted watched_kind m) ≡ restarts m + 1
unfolding watch_restarted increment
watch_restarted-restarts m = ground (
  arith,
  text_beq_self watched_kind,
  lookup-insert watched_kind watched_kind (restarts m + 1) m.watch_restarts,
)

open_watches-again :
    (answers : List (Result Fault Unit)) (m : Readings)
    → restarts (open_watches answers (true, m)).1 ≡ restarts m + accepted answers
unfolding open_watches open_watch
open_watches-again [] m = omega arith
open_watches-again (err fault ∷ answers) m = open_watches-again answers m
open_watches-again (ok tt ∷ answers) m =
    ground (
      arith,
      open_watches-again answers (watch_restarted watched_kind m),
      watch_restarted-restarts m,
    )

-- The counter goes up by one for every watch that the API server accepts after the first, and by
-- none for a watch that it refuses.
pub open_watches-restarts :
    (answers : List (Result Fault Unit)) (m : Readings)
    → restarts (open_watches answers (false, m)).1 ≡ restarts m + (accepted answers - 1)
unfolding open_watches open_watch
open_watches-restarts [] m = omega arith
open_watches-restarts (err fault ∷ answers) m = open_watches-restarts answers m
open_watches-restarts (ok tt ∷ answers) m = ground (arith, open_watches-again answers m)
