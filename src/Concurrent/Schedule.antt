-- ===== src/Concurrent/Schedule.antt =====
-- Goroutines that take turns in any order, and the rule for what none of them can break.
use per_node_csi_driver.Prelude.{ℕ, zero, suc, List, [], ◌∷◌, All}
use per_node_csi_driver.Prelude.{Bool, true, false, if◌then◌else◌}
use per_node_csi_driver.Prelude.Exec.{Result, ok, err}
use per_node_csi_driver.Concurrent.{by_result, Thread, ret, act, andthen}

module _ {S A : Type 0} where
  -- The goroutine at the index makes its next access. One that has ended, or an index past the last
  -- one, changes nothing.
  unfoldable pub advance : ℕ → S → List (Thread S A) → S × List (Thread S A)
  advance i s [] = (s, [])
  advance zero s (ret a ∷ threads) = (s, ret a ∷ threads)
  advance zero s (act f next ∷ threads) = (f s, next s ∷ threads)
  advance (suc i) s (thread ∷ threads) =
      let (t, others) = advance i s threads in (t, thread ∷ others)

  -- The indices say whose turn it is. A call that comes later is a goroutine whose turns come later.
  unfoldable pub interleave : List ℕ → S → List (Thread S A) → S × List (Thread S A)
  interleave [] s threads = (s, threads)
  interleave (i ∷ turns) s threads =
      let (t, others) = advance i s threads in interleave turns t others

  -- Every access of the goroutine keeps the property, whatever the others did before it.
  abbrev pub Keeps : (S → Type 0) → Thread S A → Type 0
  Keeps P (ret a) = Unit
  Keeps P (act f next) = (s : S) → P s → P (f s) × Keeps P (next s)

  module _ (P : S → Type 0) where
    pub advance-Keeps :
        (i : ℕ) (s : S) (threads : List (Thread S A))
        → All (Keeps P) threads
        → P s
        → P (advance i s threads).0 × All (Keeps P) (advance i s threads).1
    unfolding advance
    advance-Keeps i s [] all p = (p, tt)
    advance-Keeps zero s (ret a ∷ threads) all p = (p, all)
    advance-Keeps zero s (act f next ∷ threads) (first, all) p =
        let (q, later) = first s p in (q, (later, all))
    advance-Keeps (suc i) s (thread ∷ threads) (first, all) p =
        let (q, others) = advance-Keeps i s threads all p in (q, (first, others))

    -- What every goroutine keeps holds after any turns.
    pub interleave-Keeps :
        (turns : List ℕ) (s : S) (threads : List (Thread S A))
        → All (Keeps P) threads
        → P s
        → P (interleave turns s threads).0
    unfolding interleave
    interleave-Keeps [] s threads all p = p
    interleave-Keeps (i ∷ turns) s threads all p =
        let (q, others) = advance-Keeps i s threads all p in interleave-Keeps turns _ _ others q

module _ {S A B : Type 0} (P : S → Type 0) where
  pub Keeps-andthen :
      (m : Thread S A) (k : A → Thread S B)
      → Keeps P m
      → ((a : A) → Keeps P (k a))
      → Keeps P (andthen m k)
  unfolding andthen
  Keeps-andthen (ret a) k h rest = rest a
  Keeps-andthen (act f next) k h rest =
      λ s p. let (q, later) = h s p in (q, Keeps-andthen (next s) k later rest)

  pub Keeps-by_result :
      {E : Type 0} (f : A → Thread S B) (g : E → Thread S B)
      → ((a : A) → Keeps P (f a))
      → ((e : E) → Keeps P (g e))
      → (result : Result E A) → Keeps P (by_result f g result)
  Keeps-by_result f g hf hg (ok a) = hf a
  Keeps-by_result f g hf hg (err e) = hg e

module _ {S A : Type 0} (P : S → Type 0) where
  pub Keeps-if :
      (test : Bool) (m n : Thread S A) → Keeps P m → Keeps P n → Keeps P (if test then m else n)
  Keeps-if true m n hm hn = hm
  Keeps-if false m n hm hn = hn
