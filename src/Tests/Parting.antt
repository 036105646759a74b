-- ===== src/Tests/Parting.antt =====
-- A publish of `db`, while another pod publishes `old` and the sweep makes a pass.
use per_node_csi_driver.Prelude.{ℕ, ◌≢◌, refl, List, [], ◌∷◌, map, text_ne, text_beq}
use per_node_csi_driver.Map.{lookup}
use per_node_csi_driver.Host.Memory.{memory}
use per_node_csi_driver.Calls.{Call, publish, pass}
use per_node_csi_driver.Concurrent.Schedule.{interleave}
use per_node_csi_driver.Concurrent.Operations.{serve}
use per_node_csi_driver.Concurrent.Apart.{FirstDone}
use per_node_csi_driver.Concurrent.Apart.Leaves.{hold_of}
use per_node_csi_driver.Concurrent.Apart.Calls.{May, Says, interleave-Says}
use per_node_csi_driver.Tests.Data.{cfg, idle, request, db}
use per_node_csi_driver.Tests.Interleaving.{old}

abbrev elsewhere : List Call
elsewhere = publish (record request { volume_id = old }) ∷ pass [] ∷ []

abbrev order : List ℕ
order = 0 ∷ 1 ∷ 0 ∷ 2 ∷ 1 ∷ 0 ∷ 0 ∷ 1 ∷ 0 ∷ 2 ∷ 0 ∷ 0 ∷ 0 ∷ 1 ∷ 0 ∷ 0 ∷ 0 ∷ []

old_ne_db : old ≢ db
unfolding text_beq
old_ne_db = text_ne old db refl

interleave-Says_example :
    let (e, threads) =
      interleave order idle (map (serve memory cfg) (publish request ∷ elsewhere)) in
    May (publish request) (lookup db idle.holds) (lookup db e.holds)
    × FirstDone
        (hold_of db)
        (Says (publish request) (lookup db idle.holds))
        (lookup db e.holds)
        threads
interleave-Says_example =
    interleave-Says memory cfg db (publish request) elsewhere order idle refl (old_ne_db, (tt, tt))
