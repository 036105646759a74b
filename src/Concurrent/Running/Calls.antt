-- ===== src/Concurrent/Running/Calls.antt =====
-- The calls of other pods and the sweep, while a pod runs.
use per_node_csi_driver.Prelude.{
  ℕ, ◌≡◌, refl, ◌≢◌, ◌∙◌, sym, Bool, true, not, ◌||◌, Option, none, some, List, [], ◌∷◌, All, arith,
  Text,
}
use per_node_csi_driver.Prelude.{◌==◌, text_eq, inl, inr, Bool-cases}
use per_node_csi_driver.Prelude.Exec.{Result, ok, err}
use per_node_csi_driver.Handle.Check.{IsElement}
use per_node_csi_driver.Host.{Fault, Host, Hold}
use per_node_csi_driver.Map.{Map, lookup}
use per_node_csi_driver.Store.{copy_path, handles, remove_copy}
use per_node_csi_driver.Driver.{Driver, Settings}
use per_node_csi_driver.Node.{UnpublishRequest, StatsRequest}
use per_node_csi_driver.Sweep.{has, handles_of}
use per_node_csi_driver.Sweep.Named.{has-held}
use per_node_csi_driver.Calls.{Call, publish, unpublish, stats, pass}
use per_node_csi_driver.Concurrent.{ret}
use per_node_csi_driver.Concurrent.Schedule.{Keeps, Keeps-andthen, Keeps-by_result, Keeps-if}
use per_node_csi_driver.Concurrent.Operations.{
  clear_target, give_up, unpublish_held, node_unpublish_volume, sweep_copies, sweep, report_usage,
  node_get_volume_stats, serve,
}
use per_node_csi_driver.Holds.{held_handles}
use per_node_csi_driver.Prelude.{map}
use per_node_csi_driver.Node.{no_copy}
use per_node_csi_driver.Store.{copy_size, space_of}
use per_node_csi_driver.Concurrent.{read}
use per_node_csi_driver.Prelude.{text_beq_iff, subst}
use per_node_csi_driver.Node.Publish.Outcome.{HeldAt}
use per_node_csi_driver.Concurrent.Running.{
  IsRunning, rescue-Keeps, internally-Keeps, chain-Keeps, unbind-Keeps,
}
use per_node_csi_driver.Concurrent.Running.Needs.{Spares}
use per_node_csi_driver.Concurrent.Running.Records.{drop_hold-Keeps}
use per_node_csi_driver.Concurrent.Running.Publish.{IsFair, node_publish_volume-Keeps}

HeldAt-some :
    (uid target : Text) (o : Option Hold)
    → HeldAt uid target o
    → (standing : Hold) × (o ≡ some standing)
HeldAt-some uid target none held = absurd held
HeldAt-some uid target (some standing) held = (standing, refl)

module _ {H : Host} (cfg : Settings) {j : Text} {Q : H.State → Type 0} {Apart : Text → Type 0}
    (S : Spares H cfg.root j Q Apart) (uid held_target : Text) where
  abbrev P : Driver H → Type 0
  P = IsRunning S uid held_target

  clear_target-Keeps : (target : Text) → Apart target → Keeps P (clear_target H cfg target)
  unfolding clear_target
  clear_target-Keeps target apart =
      chain-Keeps S uid held_target _ _
        (internally-Keeps S uid held_target _ (unbind-Keeps S uid held_target target apart))
        (rescue-Keeps S uid held_target (H.remove target) _ (S.remove target apart) (λ fault. tt))

  give_up-Keeps :
      (r : UnpublishRequest) → r.volume_id ≢ j → IsElement r.volume_id → Keeps P (give_up H cfg r)
  unfolding give_up
  give_up-Keeps r other element =
      Keeps-andthen P _ _ (drop_hold-Keeps cfg S uid held_target r.volume_id other element)
        (λ a d p. (p, tt))

  unpublish_other-Keeps :
      (r : UnpublishRequest) (standing : Option Hold)
      → r.volume_id ≢ j
      → IsElement r.volume_id
      → Keeps P (unpublish_held H cfg r standing)
  unfolding unpublish_held
  unpublish_other-Keeps r none other element = give_up-Keeps r other element
  unpublish_other-Keeps r (some standing) other element =
      Keeps-if P (not (standing.target == r.target_path)) _ _ tt (give_up-Keeps r other element)

  -- An unpublish of the handle at another target.
  unpublish_elsewhere-Keeps :
      (r : UnpublishRequest) (standing : Option Hold)
      → r.target_path ≢ held_target
      → HeldAt uid held_target standing
      → Keeps P (unpublish_held H cfg r standing)
  unfolding unpublish_held
  unpublish_elsewhere-Keeps r none away held = absurd held
  unpublish_elsewhere-Keeps r (some standing) away held =
      elim (Bool-cases (standing.target == r.target_path)) [
        | inr other ↦ rw other tt
        | inl same ↦
            absurd (away (sym ((text_beq_iff standing.target r.target_path).0 same) ∙ held.1))
      ]

  unpublish_held-Keeps :
      (r : UnpublishRequest) (standing : Option Hold)
      → IsElement r.volume_id
      → r.target_path ≢ held_target
      → (r.volume_id ≡ j → HeldAt uid held_target standing)
      → Keeps P (unpublish_held H cfg r standing)
  unpublish_held-Keeps r standing element away held = elim (Bool-cases (r.volume_id == j)) [
    | inl same ↦
        unpublish_elsewhere-Keeps r standing away (held ((text_beq_iff r.volume_id j).0 same))
    | inr other ↦
        unpublish_other-Keeps r standing (λ e. cc (other, (text_beq_iff r.volume_id j).1 e)) element
  ]

  node_unpublish_volume-Keeps :
      (r : UnpublishRequest)
      → IsElement r.volume_id
      → Apart r.target_path
      → r.target_path ≢ held_target
      → Keeps P (node_unpublish_volume H cfg r)
  unfolding node_unpublish_volume
  node_unpublish_volume-Keeps r element apart away = Keeps-if P (r.volume_id == []) _ _ tt (
      Keeps-if P (r.target_path == []) _ _ tt (
        chain-Keeps S uid held_target _ _ (clear_target-Keeps r.target_path apart) (λ d p. (
          p,
          unpublish_held-Keeps r (lookup r.volume_id d.holds) element away
              (λ e. subst (λ h. HeldAt uid held_target (lookup h d.holds)) (sym e) p.0),
        ))))

  sweep_copies-Keeps :
      (named held : Map Bool) (copies : List Text)
      → All IsElement copies
      → has held j ≡ true
      → Keeps P (sweep_copies H cfg named held copies)
  unfolding sweep_copies
  sweep_copies-Keeps named held [] all kept = tt
  sweep_copies-Keeps named held (handle ∷ copies) (eh, all) kept =
      let rest = sweep_copies-Keeps named held copies all kept in
      elim (Bool-cases (has named handle || has held handle)) [
        | inl skip ↦ rw skip rest
        | inr go ↦ rw go (λ d (h, q). (
          (h, S.remove_copy handle (λ e. ground arith) eh d.os q),
          Keeps-by_result P _ _ (λ a e p. (p, rest)) (λ fault. rest)
              (remove_copy H cfg.root handle d.os).0,
        ))
      ]

  pub sweep-Keeps :
      (named : Map Bool)
      → ((s : H.State) → All IsElement (handles H cfg.root s))
      → Keeps P (sweep H cfg named)
  unfolding sweep held_handles
  sweep-Keeps named listed = λ d p.
      let (standing, e) = HeldAt-some uid held_target (lookup j d.holds) p.0 in
      (p, λ s q. (q, sweep_copies-Keeps named _ _ (listed s.os) (has-held j d.holds standing e)))

  report_usage-Keeps :
      (handle : Text) (used : ℕ) (space : Result Fault (ℕ × ℕ))
      → Keeps P (report_usage H cfg handle used space)
  unfolding report_usage
  report_usage-Keeps handle used (err fault) = tt
  report_usage-Keeps handle used (ok (available, total)) = λ d p. (p, tt)

  stats-Keeps : (r : StatsRequest) → Keeps P (serve H cfg (stats r))
  unfolding serve node_get_volume_stats
  stats-Keeps r =
      Keeps-andthen P _ _
        (Keeps-if P (r.volume_id == []) _ _ tt (
          Keeps-if P (r.volume_path == []) _ _ tt (λ d p. (
            p,
            Keeps-by_result P
                (λ used. read (λ e. space_of H cfg.root e.os) (report_usage H cfg r.volume_id used))
                (λ fault. ret (err (no_copy r.volume_id cfg.node_id fault)))
                (λ used e q. (q, report_usage-Keeps r.volume_id used (space_of H cfg.root e.os)))
                (λ fault. tt) (copy_size H (copy_path cfg.root r.volume_id) d.os),
          ))))
        (λ result. tt)

  -- What keeps a call out of the way of the pod: a publish of another handle or by another pod, at
  -- a target apart, or the pod's own publish again, and an unpublish of one path element, at a target
  -- apart.
  abbrev pub IsHarmless : Call → Type 0
  IsHarmless (publish r) = IsFair cfg S uid held_target r
  IsHarmless (unpublish r) =
      IsElement r.volume_id × Apart r.target_path × (r.target_path ≢ held_target)
  IsHarmless (stats r) = Unit
  IsHarmless (pass objects) = Unit

  pub serve-Keeps :
      (c : Call)
      → ((s : H.State) → All IsElement (handles H cfg.root s))
      → IsHarmless c
      → Keeps P (serve H cfg c)
  unfolding serve
  serve-Keeps (publish r) listed fair = node_publish_volume-Keeps cfg S uid held_target r fair
  serve-Keeps (unpublish r) listed (element, apart, away) =
      node_unpublish_volume-Keeps r element apart away
  serve-Keeps (stats r) listed h = stats-Keeps r
  serve-Keeps (pass objects) listed h = sweep-Keeps (handles_of objects) listed

  pub serve-All :
      (calls : List Call)
      → ((s : H.State) → All IsElement (handles H cfg.root s))
      → All IsHarmless calls
      → All (Keeps P) (map (serve H cfg) calls)
  serve-All [] listed all = tt
  serve-All (c ∷ calls) listed (h, all) = (serve-Keeps c listed h, serve-All calls listed all)
