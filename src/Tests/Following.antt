-- ===== src/Tests/Following.antt =====
-- The loop of the sweep after one deletion, and before the first list.
use per_node_csi_driver.Sweep
use per_node_csi_driver.Sweep.{handles_of}
use per_node_csi_driver.Concurrent.Operations.{sweep}
use per_node_csi_driver.Follow.{sweeping}
use per_node_csi_driver.Prelude.{refl, true, some, [], ◌∷◌}
use per_node_csi_driver.Host.Memory.{memory}
use per_node_csi_driver.Events.{driver_name}
use per_node_csi_driver.Sweep.{Cached, volume}
use per_node_csi_driver.Follow.{Following, follow, Steps, start, ◌andthen◌, deletes}
use per_node_csi_driver.Tests.Data.{cfg, idle, db}

abbrev claim : Cached
claim = volume [] (some (record { driver = driver_name; volume_handle = db }))

abbrev at_first : Following memory
at_first = record (follow true idle) {
  cached = claim ∷ [];
  phase = sweeping (sweep memory cfg (handles_of (claim ∷ [])));
}

abbrev deleted_once : Following memory
deleted_once = record at_first { cached = []; deleted = true }

-- The volume is deleted while a pass goes on that still has it on its list.
abbrev one_deletion : Steps memory cfg at_first deleted_once
one_deletion = start andthen deletes [] [] claim refl
