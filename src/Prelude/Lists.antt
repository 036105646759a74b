-- ===== src/Prelude/Lists.antt =====
-- Lists measured by native numbers, and predicates on their items.
use Prim.Native.Nat.{ℕ, suc, ◌+◌}
use mathlib.Core.Path.{◌≡◌}
use mathlib.Core.List.{List, [], ◌∷◌, ◌++◌}
use native.Mathlib.Omega.{arith}

abbrev pub length {ℓ} : {A : Type ℓ} → List A → ℕ
length [] = 0
length (x ∷ xs) = suc (length xs)

-- Every item has the property. It computes to tuples, which the tactics read and build.
abbrev pub All {ℓ κ} : {Item : Type ℓ} (Q : Item → Type κ) → List Item → Type κ
All Q [] = Unit
All Q (item ∷ items) = Q item × All Q items

module _ {ℓ} {A : Type ℓ} where
  pub length-append : (xs ys : List A) → length (xs ++ ys) ≡ length xs + length ys
  length-append [] ys = omega arith
  length-append (x ∷ xs) ys = omega (arith, length-append xs ys)

module _ {ℓ κ} {Item : Type ℓ} (Q : Item → Type κ) where
  pub All-append : (items others : List Item) → All Q items → All Q others → All Q (items ++ others)
  All-append [] others p q = q
  All-append (item ∷ items) others (first, p) q = (first, All-append items others p q)

  pub All-append_left : (items others : List Item) → All Q (items ++ others) → All Q items
  All-append_left [] others p = tt
  All-append_left (item ∷ items) others (first, p) = (first, All-append_left items others p)

  pub All-append_right : (items others : List Item) → All Q (items ++ others) → All Q others
  All-append_right [] others p = p
  All-append_right (item ∷ items) others (first, p) = All-append_right items others p
