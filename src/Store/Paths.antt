-- ===== src/Store/Paths.antt =====
-- Where the copies and the holds of the handles lie.
use per_node_csi_driver.Prelude.{◌≡◌, ◌≢◌, sym, ◌∙◌, [], ◌∷◌, ◌++◌, arith, Text}
use per_node_csi_driver.Text.{slash}
use per_node_csi_driver.Handle.Check.{IsElement}
use per_node_csi_driver.Path.{dotdot, join_path}
use per_node_csi_driver.Path.Child.{join_path-child}
use per_node_csi_driver.Path.Back.{
  name_of_append, join_path-injective, join_path-prefix, join_path-back,
}
use per_node_csi_driver.Host.Laws.{IsBelow}
use per_node_csi_driver.Prelude.{ap, ℕ}
use mathlib.Core.List.{append_assoc, append_cancel_left}
use per_node_csi_driver.Store.{copies_directory, holds_directory, copy_path, hold_path}

copies-IsElement : IsElement copies_directory
unfolding copies_directory
copies-IsElement = (λ e. cc, omega arith, λ e. cc, λ e. cc)

holds-IsElement : IsElement holds_directory
unfolding holds_directory
holds-IsElement = (λ e. cc, omega arith, λ e. cc, λ e. cc)

copies_ne_holds : copies_directory ≢ holds_directory
unfolding copies_directory holds_directory
copies_ne_holds e = cc

-- Under any root, the copy of a handle that is one path element is the entry of that name in the
-- directory that `handles` reads.
pub copy_path-child :
    (root handle : Text)
    → IsElement handle
    → copy_path root handle ≡ join_path (root ∷ copies_directory ∷ []) ++ slash ∷ handle
unfolding copy_path
copy_path-child root handle e = join_path-child root copies_directory handle copies-IsElement e

pub hold_path-child :
    (root handle : Text)
    → IsElement handle
    → hold_path root handle ≡ join_path (root ∷ holds_directory ∷ []) ++ slash ∷ handle
unfolding hold_path
hold_path-child root handle e = join_path-child root holds_directory handle holds-IsElement e

-- Under one root the copies and the holds of handles that are one path element have different
-- paths: a copy of one handle
-- is not the copy of another, a hold is not the hold of another, and no copy is a hold.
pub paths_apart :
    (root a b : Text)
    → IsElement a
    → IsElement b
    → (copy_path root a ≡ copy_path root b → a ≡ b)
      × (hold_path root a ≡ hold_path root b → a ≡ b)
      × (copy_path root a ≢ hold_path root b)
unfolding copies_directory holds_directory
paths_apart root a b ea eb = (
  λ h. (apart (sym (copy_path-child root a ea) ∙ h ∙ copy_path-child root b eb)).1,
  λ h. (apart (sym (hold_path-child root a ea) ∙ h ∙ hold_path-child root b eb)).1,
  λ h. copies_ne_holds (
      join_path-injective root copies_directory holds_directory copies-IsElement holds-IsElement
        (apart (sym (copy_path-child root a ea) ∙ h ∙ hold_path-child root b eb)).0),
)
  where
    apart : {x y : Text} → x ++ slash ∷ a ≡ y ++ slash ∷ b → (x ≡ y) × (a ≡ b)
    apart {x} {y} h = name_of_append x y a b ea.1 eb.1 h

-- No hold lies below a copy.
pub hold_path_not-IsBelow :
    (root a b : Text) → IsElement a → IsElement b → ¬ IsBelow (copy_path root a) (hold_path root b)
unfolding copies_directory holds_directory
hold_path_not-IsBelow root a b ea eb (rest, h) =
    let (prefix, under) = join_path-prefix root in
    let same : holds_directory ++ slash ∷ b ≡ copies_directory ++ slash ∷ (a ++ slash ∷ rest) =
      append_cancel_left prefix _ _ (
        sym (append_assoc prefix holds_directory (slash ∷ b))
        ∙ ap (λ t. t ++ slash ∷ b) (sym (under holds_directory holds-IsElement))
        ∙ sym (hold_path-child root b eb)
        ∙ h
        ∙ ap (λ t. t ++ slash ∷ rest)
            (copy_path-child root a ea
              ∙ ap (λ t. t ++ slash ∷ a) (under copies_directory copies-IsElement))
        ∙ regroup prefix copies_directory a rest) in
    apart _ _ same
  where
    regroup :
        (p c x y : Text)
        → ((p ++ c) ++ slash ∷ x) ++ slash ∷ y ≡ p ++ (c ++ slash ∷ (x ++ slash ∷ y))
    regroup p c x y = simp append_assoc

    first : (c d : ℕ) (x y : Text) → c ∷ x ≡ d ∷ y → c ≡ d
    first c d x y e = cc

    apart : (x y : Text) → holds_directory ++ x ≢ copies_directory ++ y
    apart x y e = omega (arith, first 104 99 _ _ e)

-- A handle that is not checked can step out of the directory of the holds: the hold of
-- `../copies/h` is the copy of `h`.
pub hold_path-escape :
    (root handle : Text)
    → IsElement handle
    → hold_path root (dotdot ++ slash ∷ (copies_directory ++ slash ∷ handle))
      ≡ copy_path root handle
unfolding hold_path copy_path
hold_path-escape root handle e =
    join_path-back root holds_directory copies_directory handle holds-IsElement copies-IsElement e
