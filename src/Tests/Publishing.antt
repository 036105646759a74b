-- ===== src/Tests/Publishing.antt =====
-- Publishes of `db`.
use per_node_csi_driver.Prelude.{◌≡◌, refl, ◌≢◌, some, true, [], ◌∷◌, codes, List}
use per_node_csi_driver.Prelude.Exec.{ok}
use per_node_csi_driver.Handle.{check_handle}
use per_node_csi_driver.Host.Memory.{memory}
use per_node_csi_driver.Host.Memory.Lawful.{memory-MountTable}
use per_node_csi_driver.Map.{lookup}
use per_node_csi_driver.Mount.{bind}
use per_node_csi_driver.Node.{pod_in, PublishRequest}
use per_node_csi_driver.Node.Publish.{node_publish_volume}
use per_node_csi_driver.Node.Publish.Outcome.{
  publish_held_by_other, publish-holds, publish_retry, HeldAt,
}
use per_node_csi_driver.Prelude.{◌++◌, text_ne, ◌==◌, text_eq, if◌then◌else◌}
use per_node_csi_driver.Host.Laws.{without_top}
use per_node_csi_driver.Prelude.Exec.{OnError}
use per_node_csi_driver.Node.Publish.Mounted.{IsPublished, copy_binding, publish-mounts}
use per_node_csi_driver.Node.Publish.Errors.{publish-event, explained}
use per_node_csi_driver.Mount.Laws.{bind-mounts}
use per_node_csi_driver.Calls.{Call, start, run}
use per_node_csi_driver.Calls.Reached.{run-IsSound}
use per_node_csi_driver.Node.Invariant.{IsSound}
use per_node_csi_driver.Tests.Opened.{publish_on}
use per_node_csi_driver.Tests.Data.{cfg, idle, taken, request, db, target, hold_of_b}

uid_a : (pod_in request).uid ≡ codes "a"
unfolding publish_on
uid_a = refl

published : (publish_on memory request idle).0 ≡ ok tt
unfolding publish_on
published = refl

b_ne_a : hold_of_b.pod_uid ≢ (pod_in request).uid
unfolding publish_on
b_ne_a = text_ne (codes "b") (codes "a") refl

b_holds : lookup db taken.holds ≡ some hold_of_b
unfolding publish_on
b_holds = refl

publish_held_by_other_example :
    let (result, e) = node_publish_volume memory cfg request taken in
    (result ≢ ok tt) × (e.holds ≡ taken.holds) × (e.os ≡ taken.os) × (e.readings ≡ taken.readings)
publish_held_by_other_example = publish_held_by_other memory cfg request taken b_holds b_ne_a

publish-holds_example :
    let (result, e) = node_publish_volume memory cfg request idle in
    (result ≡ ok tt → HeldAt (pod_in request).uid target (lookup db e.holds))
    × (result ≢ ok tt → e.holds ≡ idle.holds)
publish-holds_example = publish-holds memory cfg request idle

published_call : (node_publish_volume memory cfg request idle).0 ≡ ok tt
unfolding publish_on
published_call = refl

publish_retry_example :
    node_publish_volume memory cfg request (node_publish_volume memory cfg request idle).1
    ≡ (ok tt, (node_publish_volume memory cfg request idle).1)
publish_retry_example = publish_retry memory cfg request idle published_call

not_yet : ¬ IsPublished memory memory-MountTable cfg request idle
unfolding publish_on
not_yet h = h

publish-mounts_example :
    memory-MountTable.mounts (node_publish_volume memory cfg request idle).1.os target
    ≡ copy_binding memory memory-MountTable cfg request
      ∷ without_top (memory-MountTable.mounts idle.os target)
publish-mounts_example =
    publish-mounts memory memory-MountTable cfg request idle not_yet published_call

named : ((pod_in request).name ≢ []) × ((pod_in request).namespace ≢ [])
unfolding publish_on
named = (λ e. cc, λ e. cc)

publish-event_example :
    let (result, e) = node_publish_volume memory cfg request taken in
    (result ≡ ok tt → e.posted ≡ [])
    × OnError (λ s. e.posted ≡ [] ++ explained memory cfg request e s ∷ []) result
publish-event_example = publish-event memory cfg request taken refl named.0 named.1 (λ e. cc)

abbrev nowhere : PublishRequest
nowhere = record request { target_path = [] }

db_accepted : check_handle memory.quoted db ≡ ok tt
unfolding publish_on
db_accepted = refl

bound : (bind memory db target true idle.os).0 ≡ ok tt
unfolding publish_on
bound = refl

bind-mounts_example : memory-MountTable.mounts (bind memory db target true idle.os).1 target ≡ (
    if target == target
    then record { source = db; read_only = true } ∷ memory-MountTable.mounts idle.os target
    else memory-MountTable.mounts idle.os target)
bind-mounts_example = bind-mounts memory memory-MountTable db target true idle.os target bound

abbrev calls : List Call
calls = Call.publish request ∷ Call.pass [] ∷ []

run-IsSound_example : IsSound (run memory cfg calls (start memory cfg idle.os))
run-IsSound_example = run-IsSound memory cfg calls idle.os
