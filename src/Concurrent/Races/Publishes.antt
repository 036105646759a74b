-- ===== src/Concurrent/Races/Publishes.antt =====
-- Two publishes of one handle at the same time.
use per_node_csi_driver.Prelude.{
  ℕ, ◌≡◌, ◌≢◌, refl, sym, ◌∙◌, ap, ap₂, false, none, some, List, [], ◌∷◌, ◌==◌, text_eq,
}
use per_node_csi_driver.Prelude.Exec.{ok}
use per_node_csi_driver.Handle.{check_handle}
use per_node_csi_driver.Host.{Host}
use per_node_csi_driver.Host.Laws.{MountTable, IsBelow, without_top}
use per_node_csi_driver.Map.{lookup}
use per_node_csi_driver.Driver.{Driver, Settings}
use per_node_csi_driver.Holds.{holder}
use per_node_csi_driver.Node.{PublishRequest, hold_for}
use per_node_csi_driver.Node.Publish
use per_node_csi_driver.Node.Publish.Mounted.{copy_binding}
use per_node_csi_driver.Node.Publish.Race.{publish_race}
use per_node_csi_driver.Calls.{publish}
use per_node_csi_driver.Concurrent.{alone, read}
use per_node_csi_driver.Concurrent.Schedule.{advance, interleave}
use per_node_csi_driver.Concurrent.Races.Turns.{one_then_other}
use per_node_csi_driver.Concurrent.Operations.{node_publish_volume, publish_held, serve}
use per_node_csi_driver.Concurrent.Operations.Alone.Publishing.{alone-publish_held}

-- A request that a driver accepts: an accepted handle, and a target.
abbrev pub IsAccepted : Host → PublishRequest → Type 0
IsAccepted H r = (check_handle H.quoted r.volume_id ≡ ok tt) × ((r.target_path == []) ≡ false)

module _ (H : Host) (cfg : Settings) where
  node_publish_volume-read :
      (r : PublishRequest)
      → IsAccepted H r
      → node_publish_volume H cfg r ≡ read (holder r.volume_id) (publish_held H cfg r)
  unfolding node_publish_volume
  node_publish_volume-read r (accepted, given) = rw (accepted, given) refl

  -- The turns: both read the holder, the first one goes on to its end, and then the second one does.
  both_read :
      (first second : PublishRequest) (d : Driver H)
      → IsAccepted H first
      → IsAccepted H second
      → lookup first.volume_id d.holds ≡ none
      → lookup second.volume_id d.holds ≡ none
      → (turns : List ℕ) × ((interleave turns d
            (serve H cfg (publish first) ∷ serve H cfg (publish second) ∷ [])).0
          ≡ (Publish.publish_held H cfg second none (Publish.publish_held H cfg first none d).1).1)
  unfolding interleave advance serve alone
  both_read first second d a b free also =
      let (turns, p) =
        one_then_other (publish_held H cfg first none) (publish_held H cfg second none) d in
      (
        0 ∷ 1 ∷ turns,
        ap₂ (λ x y. (interleave (0 ∷ 1 ∷ turns) d (x ∷ y ∷ [])).0)
              (node_publish_volume-read first a) (node_publish_volume-read second b)
            ∙ ap₂
                (λ x y.
                  (interleave turns d
                    (publish_held H cfg first x ∷ publish_held H cfg second y ∷ [])).0)
                free also
            ∙ p
            ∙ ap (λ x. (alone (publish_held H cfg second none) x.1).1)
                (alone-publish_held H cfg first none d)
            ∙ ap (λ x. x.1) (alone-publish_held H cfg second none _),
      )

module _ (H : Host) (T : MountTable H) (cfg : Settings) (first second : PublishRequest) where
  open T use {mounts}

  -- Two publishes of a handle that nobody holds, by whichever pods, can both succeed: both goroutines
  -- read that nobody holds it before either records a hold. Where the kernel refuses neither, and the
  -- second target is neither the first one nor above it, the copy is then mounted at both targets,
  -- and the hold of the second pod has replaced that of the first.
  pub publishes_race :
      (d : Driver H)
      → IsAccepted H first
      → IsAccepted H second
      → first.volume_id ≡ second.volume_id
      → lookup first.volume_id d.holds ≡ none
      → second.target_path ≢ first.target_path
      → ¬ IsBelow second.target_path first.target_path
      → (Publish.publish_held H cfg first none d).0 ≡ ok tt
      → (Publish.publish_held H cfg second none (Publish.publish_held H cfg first none d).1).0
        ≡ ok tt
      → (turns : List ℕ) × (let e =
            (interleave turns d
              (serve H cfg (publish first) ∷ serve H cfg (publish second) ∷ [])).0 in
          (mounts e.os first.target_path
            ≡ copy_binding H T cfg first ∷ without_top (mounts d.os first.target_path))
          × (mounts e.os second.target_path
              ≡ copy_binding H T cfg second
                ∷ without_top
                    (mounts (Publish.publish_held H cfg first none d).1.os second.target_path))
          × (lookup first.volume_id e.holds ≡ some (hold_for second)))
  publishes_race d a b same free other apart p q =
      let (turns, e) =
        both_read H cfg first second d a b free (ap (λ h. lookup h d.holds) (sym same) ∙ free) in
      let (one, two, held) = publish_race H T cfg first second d same other apart p q in
      (
        turns,
        (
          ap (λ x. mounts x.os first.target_path) e ∙ one,
          ap (λ x. mounts x.os second.target_path) e ∙ two,
          ap (λ x. lookup first.volume_id x.holds) e ∙ held,
        ),
      )
