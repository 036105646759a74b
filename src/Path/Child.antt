-- ===== src/Path/Child.antt =====
-- A name under a directory: what `Clean` and `Join` make of a directory followed by names.
use mathlib.Core.List.{reverse, foldl-append, append-nil, append_assoc, reverse-cons}
use per_node_csi_driver.Prelude.{◌≡◌, refl, ◌≢◌, ap, Bool, true, false, List, [], ◌∷◌, ◌++◌, arith}
use per_node_csi_driver.Prelude.{Text, nat_eq, text_eq, text_beq_iff}
use per_node_csi_driver.Text.{slash, dot, split, split_first, join, each_after}
use per_node_csi_driver.Text.Join.{Avoids}
use per_node_csi_driver.Handle.Check.{IsElement}
use per_node_csi_driver.Path.{dotdot, clean_step, is_rooted, elements, render, clean}
use per_node_csi_driver.Path.{join_path}

split_first_whole : (h : Text) → Avoids slash h → split_first slash h ≡ (h, [])
unfolding split_first
split_first_whole [] a = refl
split_first_whole (c ∷ h) a = ground (arith, split_first_whole h a.1, a.0)

split_first-append :
    (x h : Text)
    → Avoids slash h
    → split_first slash (x ++ slash ∷ h)
      ≡ ((split_first slash x).0, (split_first slash x).1 ++ h ∷ [])
unfolding split_first
split_first-append [] h a = ground (arith, split_first_whole h a)
split_first-append (c ∷ x) h a = ground (arith, split_first-append x h a)

pub split-append :
    (x h : Text) → Avoids slash h → split slash (x ++ slash ∷ h) ≡ split slash x ++ h ∷ []
unfolding split
split-append x h a = ground (arith, split_first-append x h a)

clean_step-element :
    (rooted : Bool) (stack : List Text) (h : Text)
    → IsElement h
    → clean_step rooted stack h ≡ h ∷ stack
unfolding clean_step
clean_step-element rooted stack h (n, a, d, dd) =
    ground (arith, text_beq_iff h [], text_beq_iff h (dot ∷ []), text_beq_iff h dotdot)

pub is_rooted-append : (x h : Text) → x ≢ [] → is_rooted (x ++ slash ∷ h) ≡ is_rooted x
unfolding is_rooted
is_rooted-append [] h n = absurd (n refl)
is_rooted-append (c ∷ x) h n = refl

-- A path with a name behind it has the elements of the path, and then the name.
pub elements-append :
    (x h : Text) → x ≢ [] → IsElement h → elements (x ++ slash ∷ h) ≡ h ∷ elements x
unfolding elements
elements-append x h n e =
    rw (is_rooted-append x h n, split-append x h e.1, foldl-append) (clean_step-element _ _ h e)

each_after-append :
    (xs ys : List Text) → each_after slash (xs ++ ys) ≡ each_after slash xs ++ each_after slash ys
unfolding each_after
each_after-append [] ys = refl
each_after-append (x ∷ xs) ys = simp (each_after-append xs ys, append_assoc)

join-last :
    (xs : List Text) (d h : Text)
    → join slash ((xs ++ d ∷ []) ++ h ∷ []) ≡ join slash (xs ++ d ∷ []) ++ slash ∷ h
unfolding join
join-last [] d h = simp append-nil
join-last (x ∷ xs) d h = simp (each_after-append, append-nil, append_assoc)

pub render-child :
    (rooted : Bool) (h d : Text) (stack : List Text)
    → render rooted (h ∷ d ∷ stack) ≡ render rooted (d ∷ stack) ++ slash ∷ h
unfolding render
render-child true h d stack =
    rw (reverse-cons h (d ∷ stack), reverse-cons d stack)
      (ap (λ t. slash ∷ t) (join-last (reverse stack) d h))
render-child false h d stack =
    rw (reverse-cons h (d ∷ stack), reverse-cons d stack) (join-last (reverse stack) d h)

-- What `Join` cleans for a directory and a name in it.
abbrev pub base : Text → Text → Text
base [] d = d
base root d = root ++ slash ∷ d

abbrev pub prior : Text → List Text
prior [] = []
prior root = elements root

elements-element : (d : Text) → IsElement d → elements d ≡ d ∷ []
unfolding elements split
elements-element d e = rw (split_first_whole d e.1) (clean_step-element _ [] d e)

pub elements-base : (root d : Text) → IsElement d → elements (base root d) ≡ d ∷ prior root
elements-base [] d e = elements-element d e
elements-base (c ∷ root) d e = elements-append (c ∷ root) d (λ p. cc) e

pub base_nonempty : (root d : Text) → IsElement d → base root d ≢ []
base_nonempty [] d e = e.0
base_nonempty (c ∷ root) d e = λ p. cc

pub join_path-base : (root d : Text) → IsElement d → join_path (root ∷ d ∷ []) ≡ clean (base root d)
unfolding join_path
join_path-base [] [] e = absurd (e.0 refl)
join_path-base [] (c ∷ d) e = simp append-nil
join_path-base (c ∷ root) d e = simp append-nil

pub join_path-name :
    (root d h : Text)
    → IsElement d
    → join_path (root ∷ d ∷ h ∷ []) ≡ clean (base root d ++ slash ∷ h)
unfolding join_path
join_path-name [] [] h e = absurd (e.0 refl)
join_path-name [] (c ∷ d) h e = simp append-nil
join_path-name (c ∷ root) d h e = simp (append-nil, append_assoc)

-- `Join` of a root, a directory and a name is the directory's path, a slash and the name.
pub join_path-child :
    (root d h : Text)
    → IsElement d
    → IsElement h
    → join_path (root ∷ d ∷ h ∷ []) ≡ join_path (root ∷ d ∷ []) ++ slash ∷ h
unfolding clean
join_path-child root d h ed eh =
    rw
      (
        join_path-name root d h ed,
        join_path-base root d ed,
        elements-append (base root d) h (base_nonempty root d ed) eh,
        is_rooted-append (base root d) h (base_nonempty root d ed),
        elements-base root d ed,
      )
      (render-child _ h d (prior root))

-- A name with no slash is one piece.
pub split_whole : (h : Text) → Avoids slash h → split slash h ≡ h ∷ []
unfolding split
split_whole h a = ground (arith, split_first_whole h a)
