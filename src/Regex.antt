-- ===== src/Regex.antt =====
-- Go's regexp package, as far as handle.go uses it: classes of bytes, sequence, choice and
-- repetition, and the test of a whole text (`^…$` with `MatchString`).
pub mod Sound
use per_node_csi_driver.Prelude.{ℕ, Bool, true, false, ◌&&◌, ◌||◌, ◌≡◌, List, [], ◌∷◌, ◌++◌}
use per_node_csi_driver.Prelude.{Text, leb, if◌then◌else◌}

pub data Regex : Type 0 where
  nothing : Regex
  empty : Regex
  class : List (ℕ × ℕ) → Regex
  seq : Regex → Regex → Regex
  alt : Regex → Regex → Regex
  star : Regex → Regex

unfoldable pub in_class : List (ℕ × ℕ) → ℕ → Bool
in_class [] c = false
in_class ((lo, hi) ∷ ranges) c = (leb lo c && leb c hi) || in_class ranges c

-- What it means for a text to match. A round of a repetition takes at least one byte.
pub data Matches : Regex → Text → Type 0 where
  done : Matches empty []
  byte :
      {ranges : List (ℕ × ℕ)} {c : ℕ} → in_class ranges c ≡ true → Matches (class ranges) (c ∷ [])
  both : {r q : Regex} {s t u : Text} → Matches r s → Matches q t → u ≡ s ++ t → Matches (seq r q) u
  left : {r q : Regex} {s : Text} → Matches r s → Matches (alt r q) s
  right : {r q : Regex} {s : Text} → Matches q s → Matches (alt r q) s
  stop : {r : Regex} → Matches (star r) []
  again :
      {r : Regex} {c : ℕ} {s t u : Text}
      → Matches r (c ∷ s)
      → Matches (star r) t
      → u ≡ c ∷ (s ++ t)
      → Matches (star r) u

unfoldable pub nullable : Regex → Bool
nullable nothing = false
nullable empty = true
nullable (class ranges) = false
nullable (seq r q) = nullable r && nullable q
nullable (alt r q) = nullable r || nullable q
nullable (star r) = true

-- What is left to match after one byte.
unfoldable pub after : ℕ → Regex → Regex
after c nothing = nothing
after c empty = nothing
after c (class ranges) = if in_class ranges c then empty else nothing
after c (seq r q) =
    let rest = after c r in
    let skipped = after c q in if nullable r then alt (seq rest q) skipped else seq rest q
after c (alt r q) = alt (after c r) (after c q)
after c (star r) = seq (after c r) (star r)

-- `MatchString` of an anchored pattern.
unfoldable pub match_string : Regex → Text → Bool
unfolding nullable after in_class
match_string r [] = nullable r
match_string r (c ∷ s) = match_string (after c r) s
