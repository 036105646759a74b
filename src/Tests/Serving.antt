-- ===== src/Tests/Serving.antt =====
-- A driver that comes up on the small machine, where every address can be listened on.
use per_node_csi_driver.Prelude.{
  ◌+◌, ◌≡◌, refl, true, some, [], ◌∷◌, ◌++◌, Text, codes, if◌then◌else◌, text_beq,
}
use per_node_csi_driver.Prelude.Exec.{ok, err, Exec}
use per_node_csi_driver.Text.{cut_prefix}
use per_node_csi_driver.Host.Memory.{memory}
use per_node_csi_driver.Map.{lookup}
use per_node_csi_driver.Metrics.{seen, count_of}
use per_node_csi_driver.Driver.{Driver}
use per_node_csi_driver.Calls.{start}
use per_node_csi_driver.Status.{Status}
use per_node_csi_driver.Node.Publish.{node_publish_volume}
use per_node_csi_driver.Server.{
  operation_name, is_error, Network, Addresses, endpoint_scheme, take_socket, remove_socket,
  metrics_listen, bring_up, new_server_on, new_server,
}
use per_node_csi_driver.Server.Chain.{Serving, intercepted, code_of, intercepted-accounts}
use per_node_csi_driver.Metrics.Registry.{registered, distinct_names}
use per_node_csi_driver.Server.Started.{Grants, listening, new_server-start}
use per_node_csi_driver.Identity.{probe}
use per_node_csi_driver.Identity.Ready.{probe-ready}
use per_node_csi_driver.Store.{copy_path}
use per_node_csi_driver.Host.Memory.Lawful.{memory-FileTable}
use per_node_csi_driver.Prelude.{◌⊎◌, inr, false}
use per_node_csi_driver.Host.{Fault}
use per_node_csi_driver.Tests.Data.{machine, db, cfg, idle, request}

abbrev pub method : Text
method = codes "/csi.v1.Node/NodePublishVolume"

-- A driver that has served no call.
abbrev unused : Serving memory
unused = record { driver = idle; log = [] }

intercepted-accounts_example :
    let handler : Exec (Driver memory) Status Unit = node_publish_volume memory cfg request in
    let (r, before) = handler idle in
    let (result, after) = intercepted method 3 handler unused in
    let kind = operation_name method in
    (result ≡ r)
    × (after.driver.os ≡ before.os)
    × (after.driver.holds ≡ before.holds)
    × (after.log ≡ [] ++ record { rpc = method; code = code_of r } ∷ [])
    × (lookup kind after.driver.readings.reconcile_duration
        ≡ some (seen (lookup kind before.readings.reconcile_duration) ++ 3 ∷ []))
    × (count_of (lookup kind after.driver.readings.reconcile_errors)
        ≡ count_of (lookup kind before.readings.reconcile_errors) + (if is_error r then 1 else 0))
intercepted-accounts_example =
    intercepted-accounts method 3 (node_publish_volume memory cfg request) unused

abbrev pub open_network : Network memory
open_network = record { listen = λ network address s. (ok tt, s); close = λ address s. (ok tt, s) }

abbrev pub addresses : Addresses
addresses = record { endpoint = codes "unix:///csi/csi.sock"; metrics = codes ":9200" }

abbrev socket : Text
socket = codes "/csi/csi.sock"

comes_up :
    (new_server memory open_network cfg addresses idle.os).0
    ≡ ok (start memory cfg (take_socket memory open_network cfg socket idle.os).1)
unfolding new_server new_server_on bring_up metrics_listen take_socket remove_socket endpoint_scheme
    cut_prefix text_beq start
comes_up = refl

new_server-start_example :
    ((d : Driver memory)
      → (new_server memory open_network cfg addresses idle.os).0 ≡ ok d
      → (name : Text) × (addresses.endpoint ≡ codes "unix://" ++ name)
        × Grants memory open_network cfg addresses name idle.os
        × (d.holds
            ≡ (start memory cfg (listening memory open_network cfg addresses name idle.os)).holds))
    × ((name : Text)
        → addresses.endpoint ≡ codes "unix://" ++ name
        → Grants memory open_network cfg addresses name idle.os
        → (d : Driver memory) × ((new_server memory open_network cfg addresses idle.os).0 ≡ ok d))
new_server-start_example = new_server-start memory open_network cfg addresses idle.os

-- This machine grants all of it: the old socket was not there.
granted : Grants memory open_network cfg addresses socket idle.os
unfolding text_beq
granted = (refl, inr refl, refl, inr refl)

registered_names : distinct_names registered ≡ true
unfolding registered text_beq
registered_names = refl

probe-ready_example :
    let (result, t) = probe memory cfg.root machine in
    (((result ≡ ok (record { ready = true }))
        × ((name : Text) × ((memory.create_temp cfg.root (codes ".probe-") machine).0 ≡ ok name)))
      ⊎ ((result ≡ ok (record { ready = false }))
          × ((fault : Fault) × ((memory.create_temp cfg.root (codes ".probe-") machine).0
                ≡ err fault))))
    × (memory-FileTable.is_there machine (copy_path cfg.root db) ≡ true
        → memory-FileTable.is_there t (copy_path cfg.root db) ≡ true)
probe-ready_example = probe-ready memory memory-FileTable cfg.root (copy_path cfg.root db) machine
