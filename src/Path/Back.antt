-- ===== src/Path/Back.antt =====
-- Paths told apart by their last elements, and names that step back out of a directory.
use mathlib.Core.List.{reverse, foldl-append, append-nil, append_assoc, reverse-append}
use mathlib.Core.List.{append_cancel_left, append_cancel_right}
use per_node_csi_driver.Prelude.{
  ◌≡◌, refl, ◌≢◌, sym, ap, ◌∙◌, Bool, true, false, List, [], ◌∷◌, ◌++◌, arith,
}
use per_node_csi_driver.Prelude.{Text, nat_eq, text_eq, text_beq, text_beq_iff}
use per_node_csi_driver.Text.{slash, split, join}
use per_node_csi_driver.Text.Join.{Avoids}
use per_node_csi_driver.Handle.Check.{IsElement}
use per_node_csi_driver.Path.{dotdot, step_back, clean_step, is_rooted, elements, render, clean}
use per_node_csi_driver.Path.{join_path}
use per_node_csi_driver.Path.Child.{base, prior, split-append, elements-append, elements-base}
use per_node_csi_driver.Path.Child.{
  is_rooted-append, base_nonempty, join_path-base, join_path-name, render-child,
}

last_of_append : (xs ys : List Text) (a b : Text) → xs ++ a ∷ [] ≡ ys ++ b ∷ [] → a ≡ b
last_of_append xs ys a b h =
    let turned : a ∷ reverse xs ≡ b ∷ reverse ys =
      sym (reverse-append xs (a ∷ [])) ∙ ap reverse h ∙ reverse-append ys (b ∷ []) in
    cc turned

-- The name behind the last slash is determined by the text.
pub name_of_append :
    (x y a b : Text)
    → Avoids slash a
    → Avoids slash b
    → x ++ slash ∷ a ≡ y ++ slash ∷ b
    → (x ≡ y) × (a ≡ b)
name_of_append x y a b ha hb h =
    let same =
      last_of_append (split slash x) (split slash y) a b
        (sym (split-append x a ha) ∙ ap (split slash) h ∙ split-append y b hb) in
    (append_cancel_right x y (slash ∷ b) (ap (λ t. x ++ slash ∷ t) (sym same) ∙ h), same)

render_top :
    (rooted : Bool) (d e : Text) (stack : List Text)
    → render rooted (d ∷ stack) ≡ render rooted (e ∷ stack)
    → d ≡ e
unfolding render join
render_top true d e [] h = cc (append-nil d, append-nil e)
render_top false d e [] h = cc (append-nil d, append-nil e)
render_top rooted d e (x ∷ stack) h =
    let tails : slash ∷ d ≡ slash ∷ e =
      append_cancel_left (render rooted (x ∷ stack)) _ _
        (sym (render-child rooted d x stack) ∙ h ∙ render-child rooted e x stack) in
    cc tails

is_rooted-base : (root d : Text) → IsElement d → is_rooted (base root d) ≡ is_rooted root
unfolding is_rooted
is_rooted-base [] [] e = refl
is_rooted-base [] (c ∷ d) e = ground (arith, e.1.0)
is_rooted-base (c ∷ root) d e = refl

clean_lem : (path : Text) → clean path ≡ render (is_rooted path) (elements path)
unfolding clean
clean_lem path = refl

clean-base :
    (root d : Text) → IsElement d → clean (base root d) ≡ render (is_rooted root) (d ∷ prior root)
clean-base root d e = rw (clean_lem (base root d), is_rooted-base root d e, elements-base root d e)

-- Two directories of one root have two paths.
pub join_path-injective :
    (root d e : Text)
    → IsElement d
    → IsElement e
    → join_path (root ∷ d ∷ []) ≡ join_path (root ∷ e ∷ [])
    → d ≡ e
join_path-injective root d e hd he h = render_top (is_rooted root) d e (prior root) (
    sym (clean-base root d hd)
    ∙ sym (join_path-base root d hd)
    ∙ h
    ∙ join_path-base root e he
    ∙ clean-base root e he)

render-prefix :
    (rooted : Bool) (stack : List Text)
    → (prefix : Text) × ((d : Text) → render rooted (d ∷ stack) ≡ prefix ++ d)
unfolding render join
render-prefix true [] = (slash ∷ [], λ d. ap (λ t. slash ∷ t) (append-nil d))
render-prefix false [] = ([], append-nil)
render-prefix rooted (x ∷ stack) = (
  render rooted (x ∷ stack) ++ slash ∷ [],
  λ d. render-child rooted d x stack ∙ sym (append_assoc (render rooted (x ∷ stack)) _ d),
)

-- All directories of one root have its path in front.
pub join_path-prefix :
    (root : Text)
    → (prefix : Text) × ((d : Text) → IsElement d → join_path (root ∷ d ∷ []) ≡ prefix ++ d)
join_path-prefix root =
    let (prefix, under) = render-prefix (is_rooted root) (prior root) in
    (prefix, λ d e. join_path-base root d e ∙ clean-base root d e ∙ under d)

dotdot-Avoids : Avoids slash dotdot
dotdot-Avoids = omega arith

elements-dotdot :
    (x : Text) → x ≢ [] → elements (x ++ slash ∷ dotdot) ≡ step_back (is_rooted x) (elements x)
unfolding elements clean_step text_beq
elements-dotdot x n =
    rw (is_rooted-append x dotdot n, split-append x dotdot dotdot-Avoids, foldl-append)

step_back_element :
    (rooted : Bool) (d : Text) (stack : List Text)
    → IsElement d
    → step_back rooted (d ∷ stack) ≡ stack
unfolding step_back
step_back_element true d stack e = ground (arith, text_beq_iff d dotdot, e.3)
step_back_element false d stack e = ground (arith, text_beq_iff d dotdot, e.3)

append_nonempty : (x y : Text) → x ≢ [] → x ++ y ≢ []
append_nonempty [] y n = absurd (n refl)
append_nonempty (c ∷ x) y n = λ e. cc

regroup :
    (b e h : Text)
    → b ++ slash ∷ (dotdot ++ slash ∷ (e ++ slash ∷ h))
      ≡ ((b ++ slash ∷ dotdot) ++ slash ∷ e) ++ slash ∷ h
regroup b e h = simp append_assoc

module _ (root d e h : Text) (hd : IsElement d) (he : IsElement e) (hh : IsElement h) where
  up : Text
  up = base root d ++ slash ∷ dotdot

  up_nonempty : up ≢ []
  unfolding up
  up_nonempty = append_nonempty (base root d) (slash ∷ dotdot) (base_nonempty root d hd)

  elements-up : elements up ≡ prior root
  unfolding up
  elements-up =
      elements-dotdot (base root d) (base_nonempty root d hd)
      ∙ ap (step_back (is_rooted (base root d))) (elements-base root d hd)
      ∙ step_back_element _ d (prior root) hd

  is_rooted-up : is_rooted up ≡ is_rooted root
  unfolding up
  is_rooted-up =
      is_rooted-append (base root d) dotdot (base_nonempty root d hd) ∙ is_rooted-base root d hd

  clean-up : clean ((up ++ slash ∷ e) ++ slash ∷ h) ≡ render (is_rooted root) (h ∷ e ∷ prior root)
  clean-up = rw (
    clean_lem,
    elements-append _ h (append_nonempty up (slash ∷ e) up_nonempty) hh,
    elements-append up e up_nonempty he,
    elements-up,
    is_rooted-append _ h (append_nonempty up (slash ∷ e) up_nonempty),
    is_rooted-append up e up_nonempty,
    is_rooted-up,
  )

  clean-name : clean (base root e ++ slash ∷ h) ≡ render (is_rooted root) (h ∷ e ∷ prior root)
  clean-name = rw (
    clean_lem,
    elements-append _ h (base_nonempty root e he) hh,
    is_rooted-append _ h (base_nonempty root e he),
    is_rooted-base root e he,
    elements-base root e he,
  )

  -- A name `../e/h` under one directory is the name `h` under its neighbour `e`.
  pub join_path-back :
      join_path (root ∷ d ∷ (dotdot ++ slash ∷ (e ++ slash ∷ h)) ∷ [])
      ≡ join_path (root ∷ e ∷ h ∷ [])
  unfolding up
  join_path-back =
      join_path-name root d _ hd
      ∙ ap clean (regroup (base root d) e h)
      ∙ clean-up
      ∙ sym (join_path-name root e h he ∙ clean-name)
