-- ===== src/Prelude/Equality.antt =====
-- Equality tests as an interface: numbers, and texts as lists of bytes.
use Prim.Native.Char.{code}
use Prim.Native.Nat.{ℕ, compare, Ordering}
use Prim.Native.String.{String}
use mathlib.Core.Path.{◌≡◌, refl, sym, ◌∙◌}
use mathlib.Core.Logic.{◌↔◌, ◌≢◌}
use mathlib.Core.Bool.{Bool, true, false, ◌&&◌, false≢true}
use mathlib.Core.List.{List, [], ◌∷◌}
use native.Mathlib.Omega.{arith}

-- Go's `==` on a type: a test, and that it decides equality.
pub record Comparable {ℓ} (V : Type ℓ) : Type ℓ where
  pub same : V → V → Bool
  pub same_iff : (x y : V) → (same x y ≡ true) ↔ (x ≡ y)

infix 50 ◌==◌
abbrev pub ◌==◌ {ℓ} : {V : Type ℓ} ⦃tested : Comparable V⦄ → V → V → Bool
◌==◌ ⦃tested⦄ x y = tested.same x y

abbrev pub nat_beq : ℕ → ℕ → Bool
nat_beq a b = elim (compare a b) [ Ordering.eq ↦ true | _ ↦ false ]

pub nat_beq_iff : (a b : ℕ) → (nat_beq a b ≡ true) ↔ (a ≡ b)
nat_beq_iff a b = ground arith

instance abbrev pub nat_eq : Comparable ℕ
nat_eq = record { same = nat_beq; same_iff = nat_beq_iff }

-- A Go string: its bytes.
abbrev pub Text : Type 0
Text = List ℕ

-- A literal of the source. All of them are ASCII.
abbrev pub codes : String → Text
codes String.[] = []
codes (String.◌∷◌ first others) = code first ∷ codes others

unfoldable pub text_beq : Text → Text → Bool
text_beq [] [] = true
text_beq (x ∷ xs) (y ∷ ys) = nat_beq x y && text_beq xs ys
text_beq _ _ = false

pub text_beq_self : (a : Text) → text_beq a a ≡ true
unfolding text_beq
text_beq_self [] = refl
text_beq_self (x ∷ a) = ground (arith, text_beq_self a)

text_beq_sound : (a b : Text) → text_beq a b ≡ true → a ≡ b
unfolding text_beq
text_beq_sound [] [] h = refl
text_beq_sound (x ∷ a) (y ∷ b) h = ground (arith, text_beq_sound a b)
text_beq_sound [] (y ∷ b) h = cc
text_beq_sound (x ∷ a) [] h = cc

text_beq_complete : (a b : Text) → a ≡ b → text_beq a b ≡ true
text_beq_complete a b p = cc (p, text_beq_self a)

pub text_beq_iff : (a b : Text) → (text_beq a b ≡ true) ↔ (a ≡ b)
text_beq_iff a b = (text_beq_sound a b, text_beq_complete a b)

-- Two concrete texts differ where the test says so.
pub text_ne : (a b : Text) → text_beq a b ≡ false → a ≢ b
text_ne a b h e = false≢true (sym h ∙ text_beq_complete a b e)

instance abbrev pub text_eq : Comparable Text
text_eq = record { same = text_beq; same_iff = text_beq_iff }
