-- ===== src/Tests/Twice.antt =====
-- The pod `a` publishes `db` at `/t` and at `/v`, and `/v` is unpublished.
use per_node_csi_driver.Prelude.{◌≡◌, ◌≢◌, refl, none, ◌∷◌, codes, text_beq, text_ne}
use per_node_csi_driver.Prelude.Exec.{ok}
use per_node_csi_driver.Host.Laws.{IsBelow, without_top}
use per_node_csi_driver.Host.Memory.{memory}
use per_node_csi_driver.Host.Memory.Lawful.{memory-MountTable}
use per_node_csi_driver.Map.{lookup}
use per_node_csi_driver.Driver.{Driver}
use per_node_csi_driver.Holds.{drop_hold}
use per_node_csi_driver.Node.{PublishRequest}
use per_node_csi_driver.Node.Publish.{node_publish_volume}
use per_node_csi_driver.Node.Publish.Mounted.{IsPublished, copy_binding}
use per_node_csi_driver.Node.Publish.Twice.{undo, second_target}
use per_node_csi_driver.Node.Unpublish.{
  remove_target, clear_target, release, give_up, node_unpublish_volume,
}
use per_node_csi_driver.Tests.Data.{cfg, idle, request, db}
use per_node_csi_driver.Tests.Opened.{publish_on}

abbrev again : PublishRequest
again = record request { target_path = codes "/v" }

abbrev once : Driver memory
once = (node_publish_volume memory cfg request idle).1

abbrev twice : Driver memory
twice = (node_publish_volume memory cfg again once).1

targets_differ : again.target_path ≢ request.target_path
unfolding text_beq
targets_differ = text_ne (codes "/v") (codes "/t") refl

targets_apart : ¬ IsBelow again.target_path request.target_path
targets_apart (rest, e) = cc

fresh : ¬ IsPublished memory memory-MountTable cfg request idle
unfolding publish_on
fresh h = h

first_succeeds : (node_publish_volume memory cfg request idle).0 ≡ ok tt
unfolding publish_on
first_succeeds = refl

second_succeeds : (node_publish_volume memory cfg again once).0 ≡ ok tt
unfolding publish_on
second_succeeds = refl

undone : (node_unpublish_volume memory cfg (undo again) twice).0 ≡ ok tt
unfolding publish_on node_unpublish_volume clear_target remove_target give_up release drop_hold
undone = refl

second_target_example :
    let e = (node_unpublish_volume memory cfg (undo again) twice).1 in
    (lookup db e.holds ≡ none)
    × (memory-MountTable.mounts e.os request.target_path
        ≡ copy_binding memory memory-MountTable cfg request
          ∷ without_top (memory-MountTable.mounts idle.os request.target_path))
second_target_example =
    second_target memory memory-MountTable cfg request again idle refl targets_differ targets_apart
      fresh first_succeeds second_succeeds undone
