-- ===== src/Calls/Order/Runs.antt =====
-- Runs of calls do not depend on the order in which the map of the holds keeps its entries.
use per_node_csi_driver.Prelude.{
  ◌≡◌, refl, sym, subst, ap, ◌∙◌, Bool, true, false, ◌||◌, List, [], ◌∷◌, map, Text, Bool-cases,
  inl, inr, Option-cases, ◌==◌, text_eq, if◌then◌else◌,
}
use per_node_csi_driver.Prelude.Exec.{Result-cases}
use per_node_csi_driver.Host.{Host, Hold}
use per_node_csi_driver.Map.{Map, lookup}
use per_node_csi_driver.Map.Same.{SameEntries}
use per_node_csi_driver.Store.{copy_path, copy_size, space_of, handles, remove_copy}
use per_node_csi_driver.Driver.{Driver, Settings}
use per_node_csi_driver.Holds.{held_handles}
use per_node_csi_driver.Node.{StatsRequest}
use per_node_csi_driver.Node.Publish.{node_publish_volume}
use per_node_csi_driver.Node.Unpublish.{node_unpublish_volume}
use per_node_csi_driver.Node.Stats.{report_usage, stats_of_size, node_get_volume_stats}
use per_node_csi_driver.Sweep.{has, handles_of, swept, sweep_copy, sweep_copies, sweep}
use per_node_csi_driver.Sweep.Named.{has-held, has_free}
use per_node_csi_driver.Calls.{Call, publish, unpublish, stats, pass, call, run}
use per_node_csi_driver.Calls.Order.{
  Agree, reordered, Agree-reordered, Alike, node_publish_volume-Alike, node_unpublish_volume-Alike,
}

-- `heldHandles` of either map has the same handles.
has-SameEntries :
    (handle : Text) (m n : Map Hold)
    → SameEntries m n
    → has (map (λ (h, _). (h, true)) m) handle ≡ has (map (λ (h, _). (h, true)) n) handle
has-SameEntries handle m n (p, q, same) = elim (Option-cases (lookup handle m)) [
  | inl free ↦ has_free handle m free ∙ sym (has_free handle n (sym (same handle) ∙ free))
  | inr (standing, e) ↦
      has-held handle m standing e ∙ sym (has-held handle n standing (sym (same handle) ∙ e))
]

-- Two choices by the same test.
if_related :
    {A : Type 0} (P : A → A → Type 0) {w x y z : A} (test other : Bool)
    → test ≡ other
    → P w y
    → P x z
    → P (if test then w else x) (if other then y else z)
if_related P true true e first second = first
if_related P true false e first second = cc
if_related P false true e first second = cc
if_related P false false e first second = second

module _ (H : Host) (cfg : Settings) where
  sweep_copy-reordered :
      (handle : Text) (d : Driver H) (n : Map Hold)
      → sweep_copy H cfg handle (reordered n d) ≡ reordered n (sweep_copy H cfg handle d)
  unfolding sweep_copy swept
  sweep_copy-reordered handle d n = elim (Result-cases (remove_copy H cfg.root handle d.os).0) [
    | inl (done, e) ↦ rw e refl
    | inr (fault, e) ↦ rw e refl
  ]

  sweep_copy_keeps : (handle : Text) (d : Driver H) → (sweep_copy H cfg handle d).holds ≡ d.holds
  unfolding sweep_copy swept
  sweep_copy_keeps handle d = elim (Result-cases (remove_copy H cfg.root handle d.os).0) [
    | inl (done, e) ↦ rw e refl
    | inr (fault, e) ↦ rw e refl
  ]

  sweep_copies-Agree :
      (named held rest : Map Bool) (copies : List Text) (d : Driver H) (n : Map Hold)
      → SameEntries d.holds n
      → ((handle : Text) → has held handle ≡ has rest handle)
      → Agree
          (sweep_copies H cfg named held copies d)
          (sweep_copies H cfg named rest copies (reordered n d))
  unfolding sweep_copies
  sweep_copies-Agree named held rest [] d n same alike = (refl, refl, refl, same)
  sweep_copies-Agree named held rest (handle ∷ copies) d n same alike =
      if_related
        (λ x y.
          Agree (sweep_copies H cfg named held copies x) (sweep_copies H cfg named rest copies y))
        (has named handle || has held handle) (has named handle || has rest handle)
        (ap (λ b. has named handle || b) (alike handle))
        (sweep_copies-Agree named held rest copies d n same alike)
        (rw (sweep_copy-reordered handle d n) (
          sweep_copies-Agree named held rest copies (sweep_copy H cfg handle d) n
            (subst (λ m. SameEntries m n) (sym (sweep_copy_keeps handle d)) same) alike))

  sweep-Agree :
      (named : Map Bool) (d : Driver H) (n : Map Hold)
      → SameEntries d.holds n
      → Agree (sweep H cfg named d) (sweep H cfg named (reordered n d))
  unfolding sweep held_handles
  sweep-Agree named d n same =
      sweep_copies-Agree named _ _ (handles H cfg.root d.os) d n same
        (λ handle. has-SameEntries handle d.holds n same)

  node_get_volume_stats-Alike :
      (r : StatsRequest) (d : Driver H) (n : Map Hold)
      → SameEntries d.holds n
      → Alike H cfg
          (node_get_volume_stats H cfg r d)
          (node_get_volume_stats H cfg r (reordered n d))
  unfolding node_get_volume_stats stats_of_size report_usage
  node_get_volume_stats-Alike r d n same = elim (Bool-cases (r.volume_id == [])) [
    | inl empty ↦ rw empty (refl, (refl, refl, refl, same))
    | inr named ↦ elim (Bool-cases (r.volume_path == [])) [
      | inl nowhere ↦ rw (named, nowhere) (refl, (refl, refl, refl, same))
      | inr there ↦ elim (Result-cases (copy_size H (copy_path cfg.root r.volume_id) d.os)) [
        | inr (fault, e) ↦ rw (named, there, e) (refl, (refl, refl, refl, same))
        | inl (used, e) ↦ elim (Result-cases (space_of H cfg.root d.os)) [
          | inr (fault, f) ↦ rw (named, there, e, f) (refl, (refl, refl, refl, same))
          | inl (space, f) ↦ rw (named, there, e, f) (refl, (refl, refl, refl, same))
        ]
      ]
    ]
  ]

  -- Both drivers return the same of the call.
  abbrev pub SameAnswer : Call → Driver H → Driver H → Type 0
  SameAnswer (publish r) d e = (node_publish_volume H cfg r d).0 ≡ (node_publish_volume H cfg r e).0
  SameAnswer (unpublish r) d e =
      (node_unpublish_volume H cfg r d).0 ≡ (node_unpublish_volume H cfg r e).0
  SameAnswer (stats r) d e =
      (node_get_volume_stats H cfg r d).0 ≡ (node_get_volume_stats H cfg r e).0
  SameAnswer (pass objects) d e = Unit

  abbrev pub SameAnswers : List Call → Driver H → Driver H → Type 0
  SameAnswers [] d e = Unit
  SameAnswers (c ∷ calls) d e =
      SameAnswer c d e × SameAnswers calls (call H cfg c d) (call H cfg c e)

  call-reordered :
      (c : Call) (d : Driver H) (n : Map Hold)
      → SameEntries d.holds n
      → SameAnswer c d (reordered n d) × Agree (call H cfg c d) (call H cfg c (reordered n d))
  unfolding call
  call-reordered (publish r) d n same = node_publish_volume-Alike H cfg r d n same
  call-reordered (unpublish r) d n same = node_unpublish_volume-Alike H cfg r d n same
  call-reordered (stats r) d n same = node_get_volume_stats-Alike r d n same
  call-reordered (pass objects) d n same = (tt, sweep-Agree (handles_of objects) d n same)

  call-Agree :
      (c : Call) (d e : Driver H)
      → Agree d e
      → SameAnswer c d e × Agree (call H cfg c d) (call H cfg c e)
  call-Agree c d e (os, readings, posted, same) =
      subst (λ x. SameAnswer c d x × Agree (call H cfg c d) (call H cfg c x))
        (Agree-reordered d e (os, readings, posted, same)) (call-reordered c d e.holds same)

  -- Calls and passes of the sweep do not depend on the order of the holds, which a map of Go leaves
  -- open: two drivers on the same machine, with the same metrics and Events, and with the same holds
  -- in different orders return the same for every call, and stay alike.
  pub run-Agree :
      (calls : List Call) (d e : Driver H)
      → Agree d e
      → SameAnswers calls d e × Agree (run H cfg calls d) (run H cfg calls e)
  unfolding run
  run-Agree [] d e agree = (tt, agree)
  run-Agree (c ∷ calls) d e agree =
      let (answer, next) = call-Agree c d e agree in
      let (answers, after) = run-Agree calls _ _ next in ((answer, answers), after)
