-- ===== src/Server/Serve.antt =====
-- server.go: `serve`, which waits for the end of the run.
use per_node_csi_driver.Prelude.{◌≡◌, ◌↔◌, ◌⊎◌, inl, inr, refl, Bool, true, arith, if◌then◌else◌}
use per_node_csi_driver.Prelude.Exec.{Result, ok, err, Exec}
use per_node_csi_driver.Host.{Fault}

-- The gRPC server, as `serve` uses it: its two calls `serveOn` and `stop`, the first of which
-- answers calls until it returns, and the test for `ErrServerStopped`.
pub record GrpcServer (W : Type 0) : Type 0 where
  pub serve_on : Exec W Fault Unit
  pub stop : W → W
  pub is_stopped : Fault → Bool

-- The case of the `select` that runs: `serveOn` returned, or the context is over.
pub data Wakeup : Type 0 where
  served over : Wakeup

module _ {W : Type 0} (G : GrpcServer W) where
  -- The answer of a server that was stopped.
  unfoldable pub unless_stopped : Result Fault Unit → Result Fault Unit
  unless_stopped (ok tt) = ok tt
  unless_stopped (err fault) = if G.is_stopped fault then ok tt else err fault

  -- `serve`. The listener of the metrics is served beside it.
  unfoldable pub serve : Wakeup → Exec W Fault Unit
  serve served w = G.serve_on w
  serve over w = let (result, v) = G.serve_on (G.stop w) in (unless_stopped result, v)

  -- `serveOn` returned no error, or the one of a server that was stopped when the run was over.
  abbrev pub Ends : Wakeup → W → Type 0
  Ends served w = (G.serve_on w).0 ≡ ok tt
  Ends over w =
      ((G.serve_on (G.stop w)).0 ≡ ok tt)
      ⊎ ((fault : Fault) × ((G.serve_on (G.stop w)).0 ≡ err fault) × (G.is_stopped fault ≡ true))

  unless_stopped-ok :
      (result : Result Fault Unit)
      → (unless_stopped result ≡ ok tt) ↔ (
          (result ≡ ok tt) ⊎ ((fault : Fault) × (result ≡ err fault) × (G.is_stopped fault ≡ true)))
  unfolding unless_stopped
  unless_stopped-ok (ok tt) = ((λ e. inl refl), (λ e. refl))
  unless_stopped-ok (err fault) = (
    (λ e. inr (fault, refl, ground arith)),
    (λ alt. elim alt [ inl e ↦ cc | inr (other, e, p) ↦ ground arith ]),
  )

  pub serve-ok : (wakeup : Wakeup) (w : W) → ((serve wakeup w).0 ≡ ok tt) ↔ Ends wakeup w
  unfolding serve
  serve-ok served w = ((λ e. e), (λ e. e))
  serve-ok over w = unless_stopped-ok (G.serve_on (G.stop w)).0
