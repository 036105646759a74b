-- ===== src/Tests/Looping.antt =====
-- The pod `b` runs with `db`, and the pod `a` asks for it while the loop of the sweep starts.
use per_node_csi_driver.Prelude.{refl, true, inl, [], ◌∷◌, codes, text_beq, text_ne}
use per_node_csi_driver.Map.{lookup}
use per_node_csi_driver.Path.{join_path}
use per_node_csi_driver.Store.{copy_path, copies_directory}
use per_node_csi_driver.Sweep.{handles_of}
use per_node_csi_driver.Calls.{publish}
use per_node_csi_driver.Concurrent.Schedule.{advance}
use per_node_csi_driver.Concurrent.Operations.{serve, sweep}
use per_node_csi_driver.Concurrent.Running.{IsRunning}
use per_node_csi_driver.Concurrent.Running.Needs.{IsProvided-Spares}
use per_node_csi_driver.Follow.{
  Following, follow, sweeping, Steps, start, ◌andthen◌, arrives, synced, begins, turn,
}
use per_node_csi_driver.Follow.Spares.{AreHarmless, follow-IsRunning}
use per_node_csi_driver.Tests.Data.{cfg, request, db, target}
use per_node_csi_driver.Tests.Unpublishing.{db_element, target_ne_copy, target_apart}
use per_node_csi_driver.Tests.Interleaving.{shown, a_ne_b}
use per_node_csi_driver.Tests.Crashing.{
  target_of_b, published, published-FileTable, published-MountTable,
}
use per_node_csi_driver.Tests.Surviving.{running, listed}

-- The call came, the first list is there, the pass has begun, and the call has made an access.
abbrev called : Following published
called = record (follow true running) { calls = serve published cfg (publish request) ∷ [] }

abbrev passing : Following published
passing = record called { phase = sweeping (sweep published cfg (handles_of [])) }

abbrev turned : Following published
turned = record passing {
  driver = (advance 0 passing.driver passing.calls).0;
  calls = (advance 0 passing.driver passing.calls).1;
}

steps : Steps published cfg (follow true running) turned
unfolding follow
steps =
    start
    andthen arrives (publish request) tt
    andthen synced refl
    andthen begins refl
    andthen turn 0

harmless :
    AreHarmless cfg
      (IsProvided-Spares published published-FileTable published-MountTable cfg.root db target_of_b
        shown db_element)
      (codes "b")
      target_of_b
      steps
unfolding steps text_beq
harmless = (
  tt,
  inl (
    ((target_ne_copy, target_apart), (text_ne target target_of_b refl, λ (rest, e). cc)),
    λ e. a_ne_b,
  ),
)

runs :
    IsRunning
      (IsProvided-Spares published published-FileTable published-MountTable cfg.root db target_of_b
        shown db_element)
      (codes "b")
      target_of_b
      running
unfolding published-FileTable published-MountTable lookup copy_path join_path copies_directory
    text_beq
runs = ((refl, refl), (refl, refl))

follow-IsRunning_example :
    IsRunning
      (IsProvided-Spares published published-FileTable published-MountTable cfg.root db target_of_b
        shown db_element)
      (codes "b")
      target_of_b
      turned.driver
follow-IsRunning_example =
    follow-IsRunning published published-FileTable published-MountTable cfg db (codes "b")
      target_of_b shown db_element true running steps listed harmless runs
