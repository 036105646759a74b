-- ===== src/Text/Join.antt =====
-- Where `strings.Split` and `strings.CutPrefix` cut a text.
use per_node_csi_driver.Prelude.{ℕ, ◌≡◌, ◌≢◌, [], ◌∷◌, ◌++◌, arith, Text, All}
use per_node_csi_driver.Prelude.{some, nat_eq}
use per_node_csi_driver.Text.{split_first, split, cut_prefix}

-- No byte of the text is the separator.
abbrev pub Avoids : ℕ → Text → Type 0
Avoids sep = All (λ c. c ≢ sep)

split_first-piece :
    (sep : ℕ) (piece s : Text)
    → Avoids sep piece
    → split_first sep (piece ++ sep ∷ s) ≡ (piece, (split_first sep s).0 ∷ (split_first sep s).1)
unfolding split_first
split_first-piece sep [] s a = ground arith
split_first-piece sep (c ∷ piece) s a = ground (arith, split_first-piece sep piece s a.1, a.0)

-- The first piece ends at the first separator.
pub split-piece :
    (sep : ℕ) (piece s : Text)
    → Avoids sep piece
    → split sep (piece ++ sep ∷ s) ≡ piece ∷ split sep s
unfolding split
split-piece sep piece s a = ground (arith, split_first-piece sep piece s a)

pub cut_prefix-append : (prefix rest : Text) → cut_prefix (prefix ++ rest) prefix ≡ some rest
unfolding cut_prefix
cut_prefix-append [] rest = ground arith
cut_prefix-append (p ∷ prefix) rest = ground (arith, cut_prefix-append prefix rest)

pub cut_prefix_sound : (s prefix rest : Text) → cut_prefix s prefix ≡ some rest → s ≡ prefix ++ rest
unfolding cut_prefix
cut_prefix_sound s [] rest h = ground arith
cut_prefix_sound [] (p ∷ prefix) rest h = cc
cut_prefix_sound (c ∷ s) (p ∷ prefix) rest h = ground (arith, cut_prefix_sound s prefix rest)
