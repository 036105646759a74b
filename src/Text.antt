-- ===== src/Text.antt =====
-- The parts of Go's strings and strconv packages that the driver calls, on bytes.
pub mod Join
pub mod Decimal
use per_node_csi_driver.Prelude.{ℕ, zero, suc, ◌+◌, ◌-◌, ◌/◌, ◌%◌, Bool, true, false, not, ◌&&◌}
use per_node_csi_driver.Prelude.{Option, none, some, List, [], ◌∷◌, ◌++◌, Text, ◌==◌, nat_eq}
use per_node_csi_driver.Prelude.{if◌then◌else◌}

abbrev pub slash : ℕ
slash = b'/'

abbrev pub dot : ℕ
dot = b'.'

-- `%d` of a number that is not negative.
unfoldable decimal_onto : ℕ → ℕ → Text → Text
decimal_onto zero n out = out
decimal_onto (suc fuel) n out =
    let digit = 48 + n % 10 in
    let more = decimal_onto fuel (n / 10) (digit ∷ out) in if n / 10 == 0 then digit ∷ out else more

unfoldable pub decimal : ℕ → Text
unfolding decimal_onto
decimal n = decimal_onto (suc n) n []

-- `strings.CutPrefix`: what follows the prefix, if the text begins with it.
unfoldable pub cut_prefix : Text → Text → Option Text
cut_prefix s [] = some s
cut_prefix [] (p ∷ prefix) = none
cut_prefix (c ∷ s) (p ∷ prefix) = if c == p then cut_prefix s prefix else none

-- The pieces of a text between the separators, as `strings.Split` cuts them. The first piece is
-- apart, since there always is one.
unfoldable pub split_first : ℕ → Text → Text × List Text
split_first sep [] = ([], [])
split_first sep (c ∷ s) =
    let (first, others) = split_first sep s in
    if c == sep then ([], first ∷ others) else (c ∷ first, others)

unfoldable pub split : ℕ → Text → List Text
unfolding split_first
split sep s = let (first, others) = split_first sep s in first ∷ others

-- The pieces with the separator before each.
unfoldable pub each_after : ℕ → List Text → Text
each_after sep [] = []
each_after sep (piece ∷ pieces) = sep ∷ (piece ++ each_after sep pieces)

-- `strings.Join`.
unfoldable pub join : ℕ → List Text → Text
unfolding each_after
join sep [] = []
join sep (piece ∷ pieces) = piece ++ each_after sep pieces
