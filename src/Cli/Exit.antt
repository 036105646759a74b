-- ===== src/Cli/Exit.antt =====
-- When the program exits with 0.
use per_node_csi_driver.Prelude.{
  ◌≡◌, refl, ◌≢◌, ◌↔◌, ◌⊎◌, true, none, some, List, [], ◌∷◌, ◌++◌, Text, text_eq, text_beq_iff,
  arith,
}
use per_node_csi_driver.Prelude.Exec.{Result, ok, err, Exec}
use per_node_csi_driver.Host.{Fault}
use per_node_csi_driver.Cli.{
  no_node_id, Config, Flags, Out, defaults, report, config_of, parse, run_served, run_built,
  run_parsed, run_with,
}

module _ {W Server : Type 0} (build : Config → Exec W Fault Server)
    (serve : Server → Exec W Fault Unit) where
  -- The server could be made, and served without an error.
  abbrev pub Served : Config → W → Type 0
  Served cfg w =
      (server : Server) × ((build cfg w).0 ≡ ok server) × ((serve server (build cfg w).1).0 ≡ ok tt)

  -- The version was asked for, or a node was named and its server served.
  abbrev pub Succeeds : Flags → W → Type 0
  Succeeds flags w =
      (flags.show_version ≡ true) ⊎ ((flags.config.node_id ≢ []) × Served flags.config w)

  run_served-exit :
      (result : Result Fault Unit) (out : Out) (w : W)
      → ((run_served build serve result out w).0 ≡ 0) ↔ (result ≡ ok tt)
  unfolding run_served
  run_served-exit (err fault) out w = (λ e. absurd (omega arith), λ e. cc)
  run_served-exit (ok tt) out w = (λ e. refl, λ e. refl)

  run_built-exit :
      (result : Result Fault Server) (out : Out) (w : W)
      → ((run_built build serve result out w).0 ≡ 0)
        ↔ ((server : Server) × (result ≡ ok server) × ((serve server w).0 ≡ ok tt))
  unfolding run_built
  run_built-exit (err fault) out w = (λ e. absurd (omega arith), λ (server, e, p). cc)
  run_built-exit (ok server) out w =
      let (there, back) = run_served-exit (serve server w).0 out (serve server w).1 in
      (λ e. (server, refl, there e), λ (other, e, p). back (served_by other e p))
    where
      served_by :
          (other : Server)
          → ◌≡◌ {A = Result Fault Server} (ok server) (ok other)
          → (serve other w).0 ≡ ok tt
          → (serve server w).0 ≡ ok tt
      served_by other e p = cc (e, p)

  run_parsed-exit :
      (cfg : Config) (out : Out) (w : W)
      → ((run_parsed build serve (ok (some cfg)) out w).0 ≡ 0) ↔ Served cfg w
  unfolding run_parsed
  run_parsed-exit cfg out w = run_built-exit (build cfg w).0 out (build cfg w).1

  run_parsed-none : (out : Out) (w : W) → (run_parsed build serve (ok none) out w).0 ≡ 0
  unfolding run_parsed
  run_parsed-none out w = refl

  run_parsed-err :
      (fault : Fault) (out : Out) (w : W) → (run_parsed build serve (err fault) out w).0 ≡ 1
  unfolding run_parsed
  run_parsed-err fault out w = refl

  config_of-exit :
      (version : Text) (flags : Flags) (out : Out) (w : W)
      → let (parsed, printed) = config_of version flags out in
        ((run_parsed build serve parsed printed w).0 ≡ 0) ↔ Succeeds flags w
  unfolding config_of report
  config_of-exit version flags out w = ground (
    arith,
    text_beq_iff flags.config.node_id [],
    run_parsed-none (out ++ version ∷ []) w,
    run_parsed-err no_node_id (out ++ no_node_id.message ∷ []) w,
    run_parsed-exit flags.config out w,
  )

  -- Once the flags are read, the program exits with 0 exactly if the version was asked for, or a
  -- node was named and its server could be made and served without an error.
  pub run_with-exit :
      (parse_flags : Flags → List Text → Exec Out Fault Flags) (version : Text) (args : List Text)
      (out : Out) (w : W) (flags : Flags)
      → (parse_flags defaults args out).0 ≡ ok flags
      → ((run_with build serve parse_flags version args out w).0 ≡ 0) ↔ Succeeds flags w
  unfolding run_with parse
  run_with-exit parse_flags version args out w flags e =
      rw e (config_of-exit version flags (parse_flags defaults args out).1 w)
