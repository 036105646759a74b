-- ===== src/Tests/Ordering.antt =====
-- Two holds, in either order.
use per_node_csi_driver.Prelude.{refl, List, [], ◌∷◌, text_beq, text_eq, text_beq_iff, arith}
use per_node_csi_driver.Host.{Hold}
use per_node_csi_driver.Host.Memory.{memory}
use per_node_csi_driver.Map.{Map, lookup}
use per_node_csi_driver.Map.Same.{SameEntries}
use per_node_csi_driver.Calls.{Call, publish, unpublish, pass, run}
use per_node_csi_driver.Calls.Order.{Agree}
use per_node_csi_driver.Calls.Order.Runs.{SameAnswers, run-Agree}
use per_node_csi_driver.Tests.Data.{cfg, idle, request, release_b, hold_of_b, db}
use per_node_csi_driver.Tests.Interleaving.{old}

abbrev one : Map Hold
one = (db, hold_of_b) ∷ (old, record hold_of_b { target = old }) ∷ []

abbrev other : Map Hold
other = (old, record hold_of_b { target = old }) ∷ (db, hold_of_b) ∷ []

abbrev busy : List Call
busy = publish request ∷ unpublish release_b ∷ pass [] ∷ []

same : SameEntries one other
unfolding lookup text_beq
same = (
  (refl, (refl, tt)),
  (refl, (refl, tt)),
  λ k. ground (arith, text_beq_iff db k, text_beq_iff old k),
)

run-Agree_example :
    SameAnswers memory cfg busy (record idle { holds = one }) (record idle { holds = other })
    × Agree
        (run memory cfg busy (record idle { holds = one }))
        (run memory cfg busy (record idle { holds = other }))
run-Agree_example =
    run-Agree memory cfg busy (record idle { holds = one }) (record idle { holds = other })
      (refl, refl, refl, same)
