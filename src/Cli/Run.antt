-- ===== src/Cli/Run.antt =====
-- cli.go: `run`, the whole program: the flags, the server that they describe, and its run. main.go: `main`.
use per_node_csi_driver.Prelude.{
  ℕ, ◌≡◌, ◌≢◌, ◌↔◌, inl, inr, Bool, true, false, Option, none, some, List, [], ◌∷◌, Text, codes,
}
use per_node_csi_driver.Prelude.Exec.{Result, ok, Exec}
use per_node_csi_driver.Host.{Fault, Host}
use per_node_csi_driver.Events.{Posting, events_from}
use per_node_csi_driver.Driver.{Driver, Settings}
use per_node_csi_driver.Server.{Network, new_server}
use per_node_csi_driver.Server.Serve
use per_node_csi_driver.Server.Serve.{GrpcServer, Wakeup, Ends, serve-ok}
use per_node_csi_driver.Cli.{Config, Flags, Out, defaults, run_with}
use per_node_csi_driver.Cli.Exit.{Served, run_with-exit}

-- `mountTable` of holds.go
unfoldable pub mount_table : Text
mount_table = codes "/proc/self/mountinfo"

abbrev is_given : {A : Type 0} → Option A → Bool
is_given none = false
is_given (some a) = true

-- `newNode`: the settings of the node.
unfoldable pub settings_of : {Client : Type 0} → Config → Posting Client → Settings
settings_of cfg posting = record {
  node_id = cfg.node_id;
  root = cfg.store;
  mountinfo = mount_table;
  has_client = is_given posting.client;
}

-- What the program finds where it runs: the package net, the configuration of the cluster that the
-- pod is in, the gRPC server, and the case of its `select` that runs.
pub record Surroundings (H : Host) : Type 1 where
  pub network : Network H
  pub Access : Type 0
  pub Client : Type 0
  pub load : Result Fault Access
  pub new_for_config : Access → Result Fault Client
  pub grpc : GrpcServer (Driver H)
  pub wakeup : Wakeup

module _ (H : Host) (around : Surroundings H) where
  -- `newServer`, of the whole config.
  unfoldable pub build : Config → Exec H.State Fault (Driver H)
  build cfg =
      new_server H around.network
        (settings_of cfg (events_from cfg.node_id around.load around.new_for_config))
        (record { endpoint = cfg.endpoint; metrics = cfg.metrics })

  -- The method `serve` of the server.
  unfoldable pub serve_driver : Driver H → Exec H.State Fault Unit
  serve_driver d s =
      let (result, e) = Serve.serve around.grpc around.wakeup (record d { os = s }) in
      (result, e.os)

  -- `run`
  unfoldable pub run :
      (Flags → List Text → Exec Out Fault Flags)
      → Text
      → List Text
      → Out
      → H.State
      → ℕ × (Out × H.State)
  run = run_with build serve_driver

  -- `main` of main.go: the code with which the process exits, of its command line. Without the name
  -- of the program in front `os.Args[1:]` panics, and a Go program that panics exits with 2.
  unfoldable pub main :
      (Flags → List Text → Exec Out Fault Flags)
      → Text
      → List Text
      → Out
      → H.State
      → ℕ × (Out × H.State)
  main parse_flags version [] out s = (2, (out, s))
  main parse_flags version (program ∷ args) out s = run parse_flags version args out s

  -- The driver of the config came up, and its server ended well.
  abbrev pub RunsWell : Config → H.State → Type 0
  RunsWell cfg s =
      (d : Driver H) × ((build cfg s).0 ≡ ok d)
      × Ends around.grpc around.wakeup (record d { os = (build cfg s).1 })

  Served-RunsWell : (cfg : Config) (s : H.State) → Served build serve_driver cfg s ↔ RunsWell cfg s
  unfolding serve_driver
  Served-RunsWell cfg s = (
    (λ (d, e, p).
        (d, e, (serve-ok around.grpc around.wakeup (record d { os = (build cfg s).1 })).0 p)),
    (λ (d, e, p).
        (d, e, (serve-ok around.grpc around.wakeup (record d { os = (build cfg s).1 })).1 p)),
  )

  run-exit :
      (parse_flags : Flags → List Text → Exec Out Fault Flags) (version : Text) (args : List Text)
      (out : Out) (s : H.State) (flags : Flags)
      → (parse_flags defaults args out).0 ≡ ok flags
      → flags.show_version ≡ false
      → ((run parse_flags version args out s).0 ≡ 0)
        ↔ ((flags.config.node_id ≢ []) × RunsWell flags.config s)
  unfolding run
  run-exit parse_flags version args out s flags e asked =
      let (there, back) = run_with-exit build serve_driver parse_flags version args out s flags e in
      (
        (λ zero. elim (there zero) [
          | inl version_asked ↦ cc
          | inr (named, served) ↦ (named, (Served-RunsWell flags.config s).0 served)
        ]),
        (λ (named, well). back (inr (named, (Served-RunsWell flags.config s).1 well))),
      )

  -- Once the flags are read and no version was asked for, the process exits with 0 exactly if a node
  -- was named, its driver came up, and its gRPC server ended well: without an error, or, where the
  -- context of the run was over, with the error of a server that was stopped. The flags are read
  -- from what follows the name of the program.
  pub main-exit :
      (parse_flags : Flags → List Text → Exec Out Fault Flags) (version program : Text)
      (args : List Text) (out : Out) (s : H.State) (flags : Flags)
      → (parse_flags defaults args out).0 ≡ ok flags
      → flags.show_version ≡ false
      → ((main parse_flags version (program ∷ args) out s).0 ≡ 0)
        ↔ ((flags.config.node_id ≢ []) × RunsWell flags.config s)
  unfolding main
  main-exit parse_flags version program args out s flags e asked =
      run-exit parse_flags version args out s flags e asked
