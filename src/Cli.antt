-- ===== src/Cli.antt =====
-- cli.go: the command line and the exit code. Go's flag package, and the making and the serving of
-- the server, are parameters.
pub mod Exit
pub mod Run
use per_node_csi_driver.Prelude.{
  ℕ, Bool, Option, none, some, false, List, [], ◌∷◌, ◌++◌, Text, codes, ◌==◌, text_eq,
  if◌then◌else◌,
}
use per_node_csi_driver.Prelude.Exec.{Result, ok, err, Exec, raise, handle}
use per_node_csi_driver.Host.{Fault}

-- `config`. The interval between two sweeps is in nanoseconds.
pub record Config : Type 0 where
  pub endpoint : Text
  pub node_id : Text
  pub store : Text
  pub metrics : Text
  pub sweep_every : ℕ

-- The values of the flags.
pub record Flags : Type 0 where
  pub config : Config
  pub show_version : Bool

-- `defaultStore`
unfoldable pub default_store : Text
default_store = codes "/var/lib/liken/pod-storage/per-node"

-- `defaultSweepEvery`
abbrev pub default_sweep_every : ℕ
default_sweep_every = 600000000000

-- The defaults that `parse` gives to the flags.
unfoldable pub defaults : Flags
defaults = record {
  config = record {
    endpoint = codes "unix:///csi/csi.sock";
    node_id = [];
    store = default_store;
    metrics = codes ":9200";
    sweep_every = default_sweep_every;
  };
  show_version = false;
}

unfoldable pub no_node_id : Fault
no_node_id = record { errno = 0; message = codes "--node-id is required" }

-- The lines that are written to `out`.
abbrev pub Out : Type 0
Out = List Text

-- `report`
unfoldable pub report : {A : Type 0} → Fault → Exec Out Fault A
report fault out = (err fault, out ++ fault.message ∷ [])

-- `parse`, after `flags.Parse`: none is the nil config.
unfoldable pub config_of : Text → Flags → Exec Out Fault (Option Config)
config_of version flags out =
    if flags.show_version
    then (ok none, out ++ version ∷ [])
    else if flags.config.node_id == []
    then report no_node_id out
    else (ok (some flags.config), out)

-- `parse`
unfoldable pub parse :
    (Flags → List Text → Exec Out Fault Flags) → Text → List Text → Exec Out Fault (Option Config)
parse parse_flags version args = handle (parse_flags defaults args) (config_of version) raise

module _ {W Server : Type 0} (build : Config → Exec W Fault Server)
    (serve : Server → Exec W Fault Unit) where
  -- The end of `runWith`: what `serve` returned.
  unfoldable pub run_served : Result Fault Unit → Out → W → ℕ × (Out × W)
  run_served (err fault) out w = (1, (out ++ fault.message ∷ [], w))
  run_served (ok tt) out w = (0, (out, w))

  -- Before it: what `build` returned.
  unfoldable pub run_built : Result Fault Server → Out → W → ℕ × (Out × W)
  run_built (err fault) out w = (1, (out ++ fault.message ∷ [], w))
  run_built (ok server) out w = let (result, v) = serve server w in run_served result out v

  -- Before that: what `parse` returned.
  unfoldable pub run_parsed : Result Fault (Option Config) → Out → W → ℕ × (Out × W)
  run_parsed (err fault) out w = (1, (out, w))
  run_parsed (ok none) out w = (0, (out, w))
  run_parsed (ok (some cfg)) out w = let (result, v) = build cfg w in run_built result out v

  -- `runWith`: the exit code, what was printed, and the world that is left.
  unfoldable pub run_with :
      (Flags → List Text → Exec Out Fault Flags) → Text → List Text → Out → W → ℕ × (Out × W)
  run_with parse_flags version args out w =
      let (parsed, printed) = parse parse_flags version args out in run_parsed parsed printed w
