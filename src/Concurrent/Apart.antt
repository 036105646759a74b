-- ===== src/Concurrent/Apart.antt =====
-- A goroutine of its own handle among goroutines of other handles: what nobody else changes.
pub mod Leaves
pub mod Elsewhere
pub mod Takes
pub mod Gives
pub mod Calls
use per_node_csi_driver.Prelude.{
  ℕ, zero, suc, ◌≡◌, refl, ◌∙◌, subst, sym, Bool, true, false, List, [], ◌∷◌, All, if◌then◌else◌,
}
use per_node_csi_driver.Prelude.Exec.{Result, ok, err}
use per_node_csi_driver.Concurrent.{Thread, ret, act, andthen, by_result}
use per_node_csi_driver.Concurrent.Schedule.{advance, interleave}

module _ {S X : Type 0} (view : S → X) where
  -- No access of the goroutine changes the view, whatever the others do.
  abbrev pub Leaves : {A : Type 0} → Thread S A → Type 0
  Leaves (ret a) = Unit
  Leaves (act f next) = (s : S) → (view (f s) ≡ view s) × Leaves (next s)

  -- The goroutine, as long as nobody else changes the view: the view is good at any time, and it is
  -- what the returned value says.
  abbrev pub Follows : {A : Type 0} → (X → Type 0) → (A → X → Type 0) → X → Thread S A → Type 0
  Follows Good Done x (ret a) = Good x × Done a x
  Follows Good Done x (act f next) =
      Good x × ((s : S) → view s ≡ x → Follows Good Done (view (f s)) (next s))

  -- The first goroutine has not returned yet, or the view is what it says.
  abbrev pub FirstDone : {A : Type 0} → (A → X → Type 0) → X → List (Thread S A) → Type 0
  FirstDone Done x [] = ⊥
  FirstDone Done x (ret a ∷ threads) = Done a x
  FirstDone Done x (act f next ∷ threads) = Unit

  module _ {A : Type 0} where
    pub Leaves-andthen :
        {B : Type 0} (m : Thread S A) (k : A → Thread S B)
        → Leaves m
        → ((a : A) → Leaves (k a))
        → Leaves (andthen m k)
    unfolding andthen
    Leaves-andthen (ret a) k h rest = rest a
    Leaves-andthen (act f next) k h rest =
        λ s. let (same, later) = h s in (same, Leaves-andthen (next s) k later rest)

    pub Leaves-by_result :
        {E B : Type 0} (f : A → Thread S B) (g : E → Thread S B)
        → ((a : A) → Leaves (f a))
        → ((e : E) → Leaves (g e))
        → (result : Result E A) → Leaves (by_result f g result)
    Leaves-by_result f g hf hg (ok a) = hf a
    Leaves-by_result f g hf hg (err e) = hg e

    pub Leaves-if :
        (test : Bool) (m n : Thread S A) → Leaves m → Leaves n → Leaves (if test then m else n)
    Leaves-if true m n hm hn = hm
    Leaves-if false m n hm hn = hn

  module _ {A : Type 0} (Good : X → Type 0) (Done : A → X → Type 0) where
    -- What leaves the view alone can come first.
    pub Follows-andthen :
        {B : Type 0} (x : X) (m : Thread S B) (k : B → Thread S A)
        → Good x
        → Leaves m
        → ((b : B) → Follows Good Done x (k b))
        → Follows Good Done x (andthen m k)
    unfolding andthen
    Follows-andthen x (ret b) k good h rest = rest b
    Follows-andthen x (act f next) k good h rest = (
      good,
      λ s e.
          let (same, later) = h s in
          subst (λ y. Follows Good Done y (andthen (next s) k)) (sym (same ∙ e))
            (Follows-andthen x (next s) k good later rest),
    )

    pub Leaves-Follows :
        (x : X) (m : Thread S A) → Good x → ((a : A) → Done a x) → Leaves m → Follows Good Done x m
    Leaves-Follows x (ret a) good done h = (good, done a)
    Leaves-Follows x (act f next) good done h = (
      good,
      λ s e.
          let (same, later) = h s in
          subst (λ y. Follows Good Done y (next s)) (sym (same ∙ e))
            (Leaves-Follows x (next s) good done later),
    )

    advance-Leaves :
        (i : ℕ) (s : S) (threads : List (Thread S A))
        → All Leaves threads
        → (view (advance i s threads).0 ≡ view s) × All Leaves (advance i s threads).1
    unfolding advance
    advance-Leaves i s [] all = (refl, all)
    advance-Leaves zero s (ret a ∷ threads) all = (refl, all)
    advance-Leaves zero s (act f next ∷ threads) (first, all) =
        let (same, later) = first s in (same, (later, all))
    advance-Leaves (suc i) s (thread ∷ threads) (first, all) =
        let (same, others) = advance-Leaves i s threads all in (same, (first, others))

    -- The first goroutine follows the view, and the others leave it alone.
    abbrev IsLed : S → List (Thread S A) → Type 0
    IsLed s [] = ⊥
    IsLed s (own ∷ others) = Follows Good Done (view s) own × All Leaves others

    advance-IsLed :
        (i : ℕ) (s : S) (threads : List (Thread S A))
        → IsLed s threads
        → IsLed (advance i s threads).0 (advance i s threads).1
    unfolding advance
    advance-IsLed i s [] led = absurd led
    advance-IsLed zero s (ret a ∷ others) led = led
    advance-IsLed zero s (act f next ∷ others) ((good, step), all) = (step s refl, all)
    advance-IsLed (suc i) s (own ∷ others) (follows, all) =
        let (same, left) = advance-Leaves i s others all in
        (subst (λ x. Follows Good Done x own) (sym same) follows, left)

    IsLed-first :
        (s : S) (threads : List (Thread S A))
        → IsLed s threads
        → Good (view s) × FirstDone Done (view s) threads
    IsLed-first s [] led = absurd led
    IsLed-first s (ret a ∷ others) ((good, done), all) = (good, done)
    IsLed-first s (act f next ∷ others) ((good, step), all) = (good, tt)

    -- After any turns the view is good, and it is what the first goroutine says, if that has
    -- returned.
    pub interleave-Follows :
        (turns : List ℕ) (s : S) (threads : List (Thread S A))
        → IsLed s threads
        → let (t, left) = interleave turns s threads in Good (view t) × FirstDone Done (view t) left
    unfolding interleave
    interleave-Follows [] s threads led = IsLed-first s threads led
    interleave-Follows (i ∷ turns) s threads led =
        interleave-Follows turns _ _ (advance-IsLed i s threads led)
