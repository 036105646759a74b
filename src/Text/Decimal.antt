-- ===== src/Text/Decimal.antt =====
-- The decimal numbers of the messages: the fuel is enough for every digit.
use per_node_csi_driver.Prelude.{
  ℕ, zero, suc, ◌+◌, ◌-◌, ◌*◌, ◌/◌, ◌%◌, ◌<◌, ◌≡◌, ◌∙◌, ap, inl, inr, true, false, [], ◌∷◌, Text,
  arith, ◌==◌, nat_eq, nat_beq_iff, Bool-cases,
}
use per_node_csi_driver.Text.{decimal_onto, decimal}

-- The number that the digits add to the one that was read before them.
abbrev pub value_onto : ℕ → Text → ℕ
value_onto n [] = n
value_onto n (c ∷ digits) = value_onto (n * 10 + (c - 48)) digits

one_digit : (n : ℕ) → (n / 10 == 0) ≡ true → 0 * 10 + (48 + n % 10 - 48) ≡ n
one_digit n small = ground (arith, nat_beq_iff (n / 10) 0)

last_digit : (n : ℕ) → n / 10 * 10 + (48 + n % 10 - 48) ≡ n
last_digit n = omega arith

below : (n fuel : ℕ) → n < suc fuel → (n / 10 == 0) ≡ false → n / 10 < fuel
below n fuel h large = ground (arith, nat_beq_iff (n / 10) 0)

decimal_onto-value :
    (fuel n : ℕ) (out : Text) → n < fuel → value_onto 0 (decimal_onto fuel n out) ≡ value_onto n out
unfolding decimal_onto
decimal_onto-value zero n out h = absurd (omega (arith, h))
decimal_onto-value (suc fuel) n out h = elim (Bool-cases (n / 10 == 0)) [
  | inl small ↦ rw small (ap (λ x. value_onto x out) (one_digit n small))
  | inr large ↦ rw large (
      decimal_onto-value fuel (n / 10) ((48 + n % 10) ∷ out) (below n fuel h large)
      ∙ ap (λ x. value_onto x out) (last_digit n))
]

-- Reading the digits of a number gives the number.
pub decimal-value : (n : ℕ) → value_onto 0 (decimal n) ≡ n
unfolding decimal
decimal-value n = decimal_onto-value (suc n) n [] (omega arith)
