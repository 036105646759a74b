-- ===== src/Tests/Exiting.antt =====
-- A command line that names a node, and a run that a signal ends.
use per_node_csi_driver.Prelude.{◌∷◌}
use per_node_csi_driver.Prelude.{◌≡◌, refl, ◌↔◌, List, [], codes, Text}
use per_node_csi_driver.Prelude.Exec.{ok, Exec}
use per_node_csi_driver.Host.{Fault}
use per_node_csi_driver.Cli.{Flags, Out, defaults}
use per_node_csi_driver.Cli.Run.{Surroundings, main, RunsWell, main-exit}
use per_node_csi_driver.Host.Memory.{memory}
use per_node_csi_driver.Server.Serve.{over}
use per_node_csi_driver.Tests.Data.{machine}
use per_node_csi_driver.Tests.Serving.{open_network}
use per_node_csi_driver.Prelude.{◌≢◌, ◌==◌, text_eq}
use per_node_csi_driver.Prelude.Exec.{err}

abbrev named : Flags
named = record defaults { config = record defaults.config { node_id = codes "node-1" } }

-- It reads one command line.
abbrev parse_one : Flags → List Text → Exec Out Fault Flags
parse_one flags args out =
    (ok (record flags { config = record flags.config { node_id = codes "node-1" } }), out)

-- A pod with no access to a cluster. Its gRPC server is stopped before it reaches the socket.
abbrev stopped : Fault
stopped = record { errno = 0; message = codes "grpc: the server has been stopped" }

abbrev no_cluster : Fault
no_cluster = record { errno = 0; message = codes "not running in a cluster" }

abbrev around : Surroundings memory
around = record {
  network = open_network;
  Access = Unit;
  Client = Unit;
  load = err no_cluster;
  new_for_config = ok;
  grpc = record {
    serve_on = λ d. (err stopped, d);
    stop = λ d. d;
    is_stopped = λ fault. fault.message == stopped.message;
  };
  wakeup = over;
}

main-exit_example :
    ((main memory around parse_one (codes "dev") (codes "driver" ∷ []) [] machine).0 ≡ 0)
    ↔ ((named.config.node_id ≢ []) × RunsWell memory around named.config machine)
unfolding defaults
main-exit_example =
    main-exit memory around parse_one (codes "dev") (codes "driver") [] [] machine named refl refl
