-- ===== src/Tests/Racing.antt =====
-- Two pods publish `db` at the same time, at different targets.
use per_node_csi_driver.Prelude.{◌≡◌, refl, ◌≢◌, some, none, [], ◌∷◌, codes, text_beq, text_ne}
use per_node_csi_driver.Prelude.Exec.{ok}
use per_node_csi_driver.Host.Laws.{IsBelow, without_top}
use per_node_csi_driver.Host.Memory.{memory}
use per_node_csi_driver.Host.Memory.Lawful.{memory-MountTable}
use per_node_csi_driver.Map.{lookup}
use per_node_csi_driver.Path.{join_path, directory_of}
use per_node_csi_driver.Store.{copy_path, hold_path, copies_directory, holds_directory, make_copy}
use per_node_csi_driver.Mount.{bind, bind_read_only, make_read_only, unbind}
use per_node_csi_driver.Holds.{keep_hold, write_hold, write_content, report_volumes}
use per_node_csi_driver.Node.{PublishRequest, hold_for}
use per_node_csi_driver.Node.Publish.{mount, refuse, publish_mount, publish_held}
use per_node_csi_driver.Node.Publish.Mounted.{copy_binding}
use per_node_csi_driver.Calls.{publish}
use per_node_csi_driver.Concurrent.Schedule.{interleave}
use per_node_csi_driver.Concurrent.Operations.{serve}
use per_node_csi_driver.Concurrent.Races.Publishes.{IsAccepted, publishes_race}
use per_node_csi_driver.Tests.Opened.{publish_on}
use per_node_csi_driver.Prelude.{ℕ, List}
use per_node_csi_driver.Events.{pod_uid_key}
use per_node_csi_driver.Tests.Data.{cfg, idle, request, db}

-- The pod `b` asks for the same handle.
abbrev request_of_b : PublishRequest
request_of_b = record request {
  target_path = codes "/v";
  volume_context = (pod_uid_key, codes "b") ∷ [];
}

targets_differ : request_of_b.target_path ≢ request.target_path
unfolding text_beq
targets_differ = text_ne (codes "/v") (codes "/t") refl

targets_apart : ¬ IsBelow request_of_b.target_path request.target_path
targets_apart (rest, e) = cc

first_succeeds : (publish_held memory cfg request none idle).0 ≡ ok tt
unfolding publish_held publish_mount mount refuse make_copy unbind bind bind_read_only
    make_read_only keep_hold write_hold write_content report_volumes copy_path hold_path join_path
    directory_of copies_directory holds_directory text_beq
first_succeeds = refl

second_succeeds :
    (publish_held memory cfg request_of_b none (publish_held memory cfg request none idle).1).0
    ≡ ok tt
unfolding publish_held publish_mount mount refuse make_copy unbind bind bind_read_only
    make_read_only keep_hold write_hold write_content report_volumes copy_path hold_path join_path
    directory_of copies_directory holds_directory text_beq
second_succeeds = refl

accepted : IsAccepted memory request × IsAccepted memory request_of_b
unfolding publish_on
accepted = ((refl, refl), (refl, refl))

free : lookup db idle.holds ≡ none
unfolding lookup
free = refl

publishes_race_example :
    let between = (publish_held memory cfg request none idle).1 in
    (turns : List ℕ) × (let e =
        (interleave turns idle
          (serve memory cfg (publish request) ∷ serve memory cfg (publish request_of_b) ∷ [])).0 in
      (memory-MountTable.mounts e.os request.target_path
        ≡ copy_binding memory memory-MountTable cfg request
          ∷ without_top (memory-MountTable.mounts idle.os request.target_path))
      × (memory-MountTable.mounts e.os request_of_b.target_path
          ≡ copy_binding memory memory-MountTable cfg request_of_b
            ∷ without_top (memory-MountTable.mounts between.os request_of_b.target_path))
      × (lookup db e.holds ≡ some (hold_for request_of_b)))
publishes_race_example =
    publishes_race memory memory-MountTable cfg request request_of_b idle accepted.0 accepted.1 refl
      free targets_differ targets_apart first_succeeds second_succeeds
