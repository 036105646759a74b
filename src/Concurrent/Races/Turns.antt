-- ===== src/Concurrent/Races/Turns.antt =====
-- Turns that run one goroutine to its end, while the others wait.
use per_node_csi_driver.Prelude.{ℕ, zero, suc, ◌≡◌, refl, ◌∙◌, ap, List, [], ◌∷◌, ◌++◌, map}
use per_node_csi_driver.Concurrent.{Thread, ret, act, alone}
use per_node_csi_driver.Concurrent.Schedule.{advance, interleave}

-- The goroutine has returned.
abbrev pub HasReturned : {S A : Type 0} → Thread S A → Type 0
HasReturned (ret a) = Unit
HasReturned (act f next) = ⊥

module _ {S A : Type 0} where
  pub interleave-append :
      (turns more : List ℕ) (s : S) (threads : List (Thread S A))
      → interleave (turns ++ more) s threads
        ≡ interleave more (interleave turns s threads).0 (interleave turns s threads).1
  unfolding interleave
  interleave-append [] more s threads = refl
  interleave-append (i ∷ turns) more s threads = interleave-append turns more _ _

  -- The turns of the goroutines behind the first one.
  pub interleave-suc :
      (turns : List ℕ) (s : S) (thread : Thread S A) (threads : List (Thread S A))
      → interleave (map suc turns) s (thread ∷ threads)
        ≡ ((interleave turns s threads).0, thread ∷ (interleave turns s threads).1)
  unfolding interleave advance
  interleave-suc [] s thread threads = refl
  interleave-suc (i ∷ turns) s thread threads = interleave-suc turns _ thread _

  -- There are turns that run the first goroutine to its end, with nothing in between.
  pub to_the_end :
      (thread : Thread S A) (s : S) (threads : List (Thread S A))
      → (turns : List ℕ) × (interleave turns s (thread ∷ threads)
          ≡ ((alone thread s).1, ret (alone thread s).0 ∷ threads))
  unfolding interleave advance alone
  to_the_end (ret a) s threads = ([], refl)
  to_the_end (act f next) s threads =
      let (turns, e) = to_the_end (next s) (f s) threads in (zero ∷ turns, e)

  second_to_the_end :
      (first thread : Thread S A) (s : S) (threads : List (Thread S A))
      → (turns : List ℕ) × (interleave turns s (first ∷ thread ∷ threads)
          ≡ ((alone thread s).1, first ∷ ret (alone thread s).0 ∷ threads))
  second_to_the_end first thread s threads =
      let (turns, e) = to_the_end thread s threads in
      (
        map suc turns,
        interleave-suc turns s first (thread ∷ threads) ∙ ap (λ p. (p.0, first ∷ p.1)) e,
      )

  -- Of two goroutines, the first one runs to its end, and then the second one does.
  pub both_to_the_end :
      (first second : Thread S A) (s : S)
      → (turns : List ℕ) × (interleave turns s (first ∷ second ∷ []) ≡ (
        (alone second (alone first s).1).1,
        ret (alone first s).0 ∷ ret (alone second (alone first s).1).0 ∷ [],
      ))
  both_to_the_end first second s =
      let (zeros, p) = to_the_end first s (second ∷ []) in
      let (ones, q) = second_to_the_end (ret (alone first s).0) second (alone first s).1 [] in
      (
        zeros ++ ones,
        interleave-append zeros ones s (first ∷ second ∷ [])
            ∙ ap (λ x. interleave ones x.0 x.1) p
            ∙ q,
      )

  pub one_then_other :
      (first second : Thread S A) (s : S)
      → (turns : List ℕ) × ((interleave turns s (first ∷ second ∷ [])).0
          ≡ (alone second (alone first s).1).1)
  one_then_other first second s =
      let (turns, p) = both_to_the_end first second s in (turns, ap (λ x. x.0) p)
