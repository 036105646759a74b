-- ===== src/Tests/Leasing.antt =====
-- A publish, an unpublish of another target, and a pass, as steps of the leases.
use per_node_csi_driver.Prelude.{List, [], ◌∷◌}
use per_node_csi_driver.Host.Memory.{memory}
use per_node_csi_driver.Calls.{Call, publish, unpublish, pass, run}
use per_node_csi_driver.Lease.{Grant, Steps}
use per_node_csi_driver.Lease.Implemented.{leases_of, AreOf, run-Steps}
use per_node_csi_driver.Tests.Data.{cfg, taken, request, release_a}

abbrev calls : List Call
calls = publish request ∷ unpublish release_a ∷ pass [] ∷ []

run-Steps_example :
    (grants : List Grant) × Steps grants
      (leases_of taken.holds)
      (leases_of (run memory cfg calls taken).holds)
    × AreOf calls grants
run-Steps_example = run-Steps memory cfg calls taken
