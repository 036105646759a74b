-- ===== src/Concurrent/Races.antt =====
-- What two goroutines can do to one another between two accesses.
pub mod Turns
pub mod Publishes
use mathlib.Core.List.{Memᴰ}
use per_node_csi_driver.Prelude.{
  ℕ, ◌+◌, length, ◌≡◌, Bool, ◌≢◌, refl, sym, ◌∙◌, ap, subst, false, none, some, List, [], ◌∷◌, ◌++◌,
  arith, Text, ◌||◌,
}
use per_node_csi_driver.Prelude.{text_eq, text_beq_iff}
use per_node_csi_driver.Prelude.{All}
use per_node_csi_driver.Prelude.Exec.{Result, ok}
use per_node_csi_driver.Host.{Fault}
use per_node_csi_driver.Status.{Status}
use per_node_csi_driver.Host.{Host, Hold}
use per_node_csi_driver.Host.Files.{FileTable}
use per_node_csi_driver.Map.{Map, lookup, insert}
use per_node_csi_driver.Store.{copy_path, hold_path, handles}
use per_node_csi_driver.Metrics.{set_volumes}
use per_node_csi_driver.Driver.{Driver, Settings}
use per_node_csi_driver.Holds.{held_handles}
use per_node_csi_driver.Node.{PublishRequest, pod_in, hold_for}
use per_node_csi_driver.Node.Publish.Outcome.{HeldAt, publish-holds}
use per_node_csi_driver.Node.Publish
use per_node_csi_driver.Sweep
use per_node_csi_driver.Sweep.{Cached, handles_of}
use per_node_csi_driver.Sweep.Named.{IsNamed, handles_of_iff, has_free}
use per_node_csi_driver.Sweep.Removes.{sweep_copies-removes}
use per_node_csi_driver.Calls.{publish, pass}
use per_node_csi_driver.Calls.Reached.{sweep_copies-holds}
use per_node_csi_driver.Concurrent.{Thread, ret, act, alone}
use per_node_csi_driver.Concurrent.Schedule.{advance, interleave}
use per_node_csi_driver.Concurrent.Races.Turns.{HasReturned, both_to_the_end, one_then_other}
use per_node_csi_driver.Concurrent.Operations.{
  sweep, sweep_copies, serve, keep_hold, write_hold, report_volumes,
}
use per_node_csi_driver.Concurrent.Operations.Alone.{alone-sweep_copies}
use per_node_csi_driver.Concurrent.Operations.Alone.Publishing.{
  alone-write_hold, alone-node_publish_volume,
}

module _ (H : Host) (cfg : Settings) where
  -- A new entry of the map of the holds.
  length-insert :
      (key : Text) (taken : Hold) (holds : Map Hold)
      → lookup key holds ≡ none
      → length (insert key taken holds) ≡ length holds + 1
  unfolding insert lookup
  length-insert key taken [] fresh = omega arith
  length-insert key taken (entry ∷ entries) fresh = ground (arith, length-insert key taken entries)

  -- The end of `keepHold`, the file of the hold, changes neither the holds nor the metrics.
  write_hold_keeps :
      (path : Text) (written : Result Fault Text) (d : Driver H)
      → let (_, e) = alone (write_hold H cfg path written) d in
        (e.holds ≡ d.holds) × (e.readings ≡ d.readings)
  write_hold_keeps path written d = rw (alone-write_hold H cfg path written d) (refl, refl)

  -- What is left of `keepHold` then.
  abbrev writing : Text → Hold → Thread (Driver H) Unit
  writing handle taken = write_hold H cfg (hold_path cfg.root handle) (H.marshal taken)

  -- The turns that end two goroutines that have only their files left to write.
  files_written :
      (j k : Text) (first second : Hold) (d : Driver H)
      → (turns : List ℕ) × (let (e, threads) =
            interleave turns d (writing j first ∷ writing k second ∷ []) in
          All HasReturned threads × (e.holds ≡ d.holds) × (e.readings ≡ d.readings))
  files_written j k first second d =
      let after : Driver H = (alone (writing j first) d).1 in
      let (turns, p) = both_to_the_end (writing j first) (writing k second) d in
      let (holds, readings) = write_hold_keeps (hold_path cfg.root j) (H.marshal first) d in
      let (holds', readings') = write_hold_keeps (hold_path cfg.root k) (H.marshal second) after in
      (turns, rw p ((tt, (tt, tt)), holds' ∙ holds, readings' ∙ readings))

  -- Two pods can record holds of two handles that nobody held so that, when both goroutines have
  -- returned, the gauge of the volumes is one less than the number of the holds: the first one has
  -- counted before the second one records its hold, and sets the gauge after it.
  pub gauge_race :
      (j k : Text) (first second : Hold) (d : Driver H)
      → lookup j d.holds ≡ none
      → lookup k (insert j first d.holds) ≡ none
      → (turns : List ℕ) × (let (e, threads) =
            interleave turns d (keep_hold H cfg j first ∷ keep_hold H cfg k second ∷ []) in
          All HasReturned threads
          × (length e.holds ≡ length d.holds + 2)
          × (e.readings.volumes ≡ length d.holds + 1))
  unfolding interleave advance keep_hold report_volumes set_volumes
  gauge_race j k first second d fresh other =
      let (more, (ended, holds, readings)) = files_written j k first second (record d {
        holds = insert k second (insert j first d.holds);
        readings = record d.readings { volumes = length (insert j first d.holds) };
      }) in
      (
        0 ∷ 0 ∷ 1 ∷ 1 ∷ 1 ∷ 0 ∷ more,
        (
          ended,
          ap length holds
              ∙ omega (
                arith,
                length-insert j first d.holds fresh,
                length-insert k second (insert j first d.holds) other,
              ),
          ap (λ m. m.volumes) readings ∙ length-insert j first d.holds fresh,
        ),
      )

  -- The rest of a pass that has read the holds.
  sweep_rest : List Cached → Driver H → Thread (Driver H) (Result Status Unit)
  sweep_rest objects d =
      act (λ e. e)
        (λ e. sweep_copies H cfg (handles_of objects) (held_handles d) (handles H cfg.root e.os))

  -- The turns: the pass reads the holds, the publish runs to its end, and the pass goes on.
  publish_within :
      (r : PublishRequest) (objects : List Cached) (d : Driver H)
      → let e = (Publish.node_publish_volume H cfg r d).1 in
        (turns : List ℕ) × ((interleave turns d
            (serve H cfg (publish r) ∷ serve H cfg (pass objects) ∷ [])).0
          ≡ Sweep.sweep_copies H cfg
              (handles_of objects)
              (held_handles d)
              (handles H cfg.root e.os)
              e)
  unfolding interleave advance serve sweep sweep_rest alone
  publish_within r objects d =
      let e = (Publish.node_publish_volume H cfg r d).1 in
      let (turns, p) = one_then_other (serve H cfg (publish r)) (sweep_rest objects d) d in
      (
        1 ∷ turns,
        p
            ∙ ap (λ x. (alone (sweep_rest objects d) x.1).1) (alone-node_publish_volume H cfg r d)
            ∙ ap (λ x. x.1)
                (alone-sweep_copies H cfg (handles_of objects) (held_handles d)
                  (handles H cfg.root e.os) e),
      )

module _ (H : Host) (F : FileTable H) (cfg : Settings) where
  open F use {is_there}

  -- A pass of the sweep can remove the copy of a pod that runs: where it has read the holds before
  -- a publish of a handle that nobody held and that its list does not name, and lists the copies
  -- after that publish has succeeded, the pod then holds the handle, at the target of the request,
  -- and the copy is gone. The kernel refuses no removal, and the copy that the publish made is
  -- listed.
  pub sweep_race :
      (r : PublishRequest) (objects : List Cached) (d : Driver H)
      → let (result, e) = Publish.node_publish_volume H cfg r d in
        lookup r.volume_id d.holds ≡ none
        → ¬ IsNamed r.volume_id objects
        → result ≡ ok tt
        → Memᴰ r.volume_id (handles H cfg.root e.os)
        → ((name : Text) (s : H.State) → (H.remove_all name s).0 ≡ ok tt)
        → (turns : List ℕ) × (let after =
              (interleave turns d (serve H cfg (publish r) ∷ serve H cfg (pass objects) ∷ [])).0 in
            HeldAt (pod_in r).uid r.target_path (lookup r.volume_id after.holds)
            × (is_there after.os (copy_path cfg.root r.volume_id) ≡ false))
  unfolding held_handles
  sweep_race r objects d free unnamed success listed removes =
      let e = (Publish.node_publish_volume H cfg r d).1 in
      let (turns, p) = publish_within H cfg r objects d in
      (
        turns,
        (
          subst (λ x. HeldAt (pod_in r).uid r.target_path (lookup r.volume_id x))
              (sym (ap (λ x. x.holds) p ∙ sweep_copies-holds H cfg _ _ (handles H cfg.root e.os) e))
              ((publish-holds H cfg r d).0 success),
          ap (λ x. is_there x.os (copy_path cfg.root r.volume_id)) p
              ∙ sweep_copies-removes H F cfg (handles_of objects) _ _ r.volume_id e removes listed (
                  ground (
                    arith,
                    has_free r.volume_id d.holds free,
                    handles_of_iff r.volume_id objects,
                    unnamed,
                  )),
        ),
      )
