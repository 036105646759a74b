-- ===== src/Follow/Wakes.antt =====
-- The deletions, and the passes that follow them.
use per_node_csi_driver.Prelude.{
  ◌≡◌, refl, ◌≢◌, ◌∙◌, ap, sym, subst, ◌⊎◌, inl, inr, Bool, true, false,
}
use per_node_csi_driver.Host.{Host}
use per_node_csi_driver.Map.{Map}
use per_node_csi_driver.Driver.{Driver, Settings}
use per_node_csi_driver.Sweep
use per_node_csi_driver.Sweep.{handles_of}
use per_node_csi_driver.Concurrent.{ret, act, alone}
use per_node_csi_driver.Concurrent.Operations.{sweep}
use per_node_csi_driver.Concurrent.Operations.Alone.{alone-sweep}
use per_node_csi_driver.Follow.{
  Goroutine, Phase, syncing, waiting, due, ended, sweeping, Following, added, updated, deletes,
  synced, unsynced, receive, tick, begins, sweeps, swept, done, arrives, turn, Steps, start,
  ◌andthen◌, AreOwn,
}

-- The driver once what is left of a pass under way was done, with nothing in between.
abbrev pub after_pass : {H : Host} → Phase H → Driver H → Driver H
after_pass syncing d = d
after_pass waiting d = d
after_pass due d = d
after_pass ended d = d
after_pass (sweeping thread) d = (alone thread d).1

abbrev pub settled : {H : Host} → Following H → Driver H
settled f = after_pass f.phase f.driver

module _ (H : Host) (cfg : Settings) where
  -- Whether an object was deleted after the last pass began, and so after it read the list.
  unfoldable pub missed : {f g : Following H} → Steps H cfg f g → Bool
  missed start = false
  missed (steps andthen added object) = missed steps
  missed (steps andthen updated before after old new e) = missed steps
  missed (steps andthen deletes before after object e) = true
  missed (steps andthen synced p) = missed steps
  missed (steps andthen unsynced p) = missed steps
  missed (steps andthen receive p q) = missed steps
  missed (steps andthen tick p) = missed steps
  missed (steps andthen begins p) = false
  missed (steps andthen sweeps p) = missed steps
  missed (steps andthen swept p) = missed steps
  missed (steps andthen done p) = missed steps
  missed (steps andthen arrives c k) = missed steps
  missed (steps andthen turn i) = missed steps

  -- The slot is full, a pass is due, or the loop has ended.
  abbrev pub IsCovered : Following H → Type 0
  IsCovered f = (f.deleted ≡ true) ⊎ (f.phase ≡ due) ⊎ (f.phase ≡ ended)

  -- Inside a pass, only the slot covers a deletion.
  inside :
      (f : Following H) {thread : Goroutine H}
      → f.phase ≡ sweeping thread
      → IsCovered f
      → f.deleted ≡ true
  inside f p (inl q) = q
  inside f p (inr (inl q)) = cc
  inside f p (inr (inr q)) = cc

  missed-IsCovered :
      {f g : Following H} (steps : Steps H cfg f g) → missed steps ≡ true → IsCovered g
  unfolding missed
  missed-IsCovered start h = cc
  missed-IsCovered (steps andthen added object) h = missed-IsCovered steps h
  missed-IsCovered (steps andthen updated before after old new e) h = missed-IsCovered steps h
  missed-IsCovered (steps andthen deletes before after object e) h = inl refl
  missed-IsCovered (steps andthen synced p) h = inr (inl refl)
  missed-IsCovered (steps andthen unsynced p) h = inr (inr refl)
  missed-IsCovered (steps andthen receive p q) h = inr (inl refl)
  missed-IsCovered (steps andthen tick p) h = inr (inl refl)
  missed-IsCovered (steps andthen begins p) h = cc
  missed-IsCovered (steps andthen sweeps {f = f} p) h = inl (inside f p (missed-IsCovered steps h))
  missed-IsCovered (steps andthen swept {f = f} p) h = inl (inside f p (missed-IsCovered steps h))
  missed-IsCovered (steps andthen done p) h = inr (inr refl)
  missed-IsCovered (steps andthen arrives c k) h = missed-IsCovered steps h
  missed-IsCovered (steps andthen turn i) h = missed-IsCovered steps h

  -- Own steps that end at the `select`, in the given driver, with the store and the slot as they are.
  abbrev Finishes : Following H → Following H → Driver H → Type 0
  Finishes f g d =
      (h : Following H) × (next : Steps H cfg f h) × AreOwn H cfg next
      × (h.phase ≡ waiting)
      × (h.cached ≡ g.cached)
      × (h.deleted ≡ g.deleted)
      × (h.driver ≡ d)

  -- A pass under way goes on to its end.
  finish :
      {f : Following H} (thread : Goroutine H) (g : Following H) (steps : Steps H cfg f g)
      → AreOwn H cfg steps
      → g.phase ≡ sweeping thread
      → Finishes f g (alone thread g.driver).1
  unfolding alone
  finish (ret result) g steps own p = (_, steps andthen swept p, (own, tt), refl, refl, refl, refl)
  finish (act change next) g steps own p =
      finish (next g.driver)
        (record g { phase = sweeping (next g.driver); driver = change g.driver })
        (steps andthen sweeps p) (own, tt) refl

  -- Own steps that end at the `select`, after a pass over the driver.
  abbrev Passed : Following H → Map Bool → Driver H → Type 0
  Passed f named d =
      (h : Following H) × (next : Steps H cfg f h) × AreOwn H cfg next
      × (h.phase ≡ waiting)
      × (h.driver ≡ Sweep.sweep H cfg named d)

  -- Own steps that end with a pass over what the store of the informer holds now, once a pass under
  -- way is over.
  abbrev pub Passes : Following H → Type 0
  Passes g = Passed g (handles_of g.cached) (settled g)

  -- The pass that is due.
  due-Passed :
      {f : Following H} (g : Following H) (steps : Steps H cfg f g)
      → AreOwn H cfg steps
      → g.phase ≡ due
      → Passed f (handles_of g.cached) g.driver
  due-Passed g steps own p =
      let named = handles_of g.cached in
      let (h, next, mine, waits, _, _, e) =
        finish (sweep H cfg named) (record g { phase = sweeping (sweep H cfg named) })
          (steps andthen begins p) (own, tt) refl in
      (h, next, mine, waits, e ∙ ap (λ x. x.1) (alone-sweep H cfg named g.driver))

  -- Which driver the pass is over.
  Passed-at :
      {f : Following H} (named : Map Bool) {d e : Driver H}
      → d ≡ e
      → Passed f named d
      → Passed f named e
  Passed-at named p (h, next, mine, waits, q) =
      (h, next, mine, waits, q ∙ ap (Sweep.sweep H cfg named) p)

  settled-at :
      (g : Following H) {phase : Phase H} → g.phase ≡ phase → after_pass phase g.driver ≡ settled g
  settled-at g p = ap (λ phase. after_pass phase g.driver) (sym p)

  -- A driver that was just started makes its first pass once the list is there.
  pub synced-Passes : (g : Following H) → g.phase ≡ syncing → Passes g
  synced-Passes g p =
      Passed-at (handles_of g.cached) (settled-at g p)
        (due-Passed (record g { phase = due }) (start andthen synced p) (tt, tt) refl)

  due-Passes : (g : Following H) → g.phase ≡ due → Passes g
  due-Passes g p = Passed-at (handles_of g.cached) (settled-at g p) (due-Passed g start tt p)

  received-Passes : (g : Following H) → g.phase ≡ waiting → g.deleted ≡ true → Passes g
  received-Passes g p q = Passed-at (handles_of g.cached) (settled-at g p) (
      due-Passed (record g { phase = due; deleted = false }) (start andthen receive p q) (tt, tt)
        refl)

  -- The pass under way has its list from before the deletion, and another one comes after it.
  overtaken-Passes :
      (g : Following H) (thread : Goroutine H)
      → g.phase ≡ sweeping thread
      → g.deleted ≡ true
      → Passes g
  overtaken-Passes g thread p q =
      let (h, next, own, waits, same, full, e) = finish thread g start tt p in
      let last : Passed g (handles_of h.cached) h.driver =
        due-Passed (record h { phase = due; deleted = false })
          (next andthen receive waits (full ∙ q)) (own, tt) refl in
      Passed-at (handles_of g.cached) (settled-at g p) (
        subst (λ objects. Passed g (handles_of objects) (alone thread g.driver).1) same
          (Passed-at (handles_of h.cached) e last))

  -- After any steps of the loop, the informer and the kubelet, a deletion that came after the last
  -- pass had read the list is followed by a pass while the loop runs: its own next steps, the first
  -- list where it still waits for it but no tick, end in a pass over the volumes that are left.
  pub deletion-Passes :
      {f g : Following H} (steps : Steps H cfg f g)
      → missed steps ≡ true
      → g.phase ≢ ended
      → Passes g
  deletion-Passes {g = g} steps h running = by_phase g.phase refl
    where
      by_phase : (phase : Phase H) → g.phase ≡ phase → Passes g
      by_phase syncing p = synced-Passes g p
      by_phase due p = due-Passes g p
      by_phase ended p = absurd (running p)
      by_phase (sweeping thread) p =
          overtaken-Passes g thread p (inside g p (missed-IsCovered steps h))
      by_phase waiting p = elim (missed-IsCovered steps h) [
        | inl q ↦ received-Passes g p q
        | inr (inl q) ↦ due-Passes g q
        | inr (inr q) ↦ absurd (running q)
      ]
