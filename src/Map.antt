-- ===== src/Map.antt =====
-- Go maps with string keys, as association lists. Go leaves the order of the entries open.
pub mod Same
use per_node_csi_driver.Prelude.{◌≡◌, refl, Option, none, some}
use per_node_csi_driver.Prelude.{List, [], ◌∷◌, arith, Text, ◌==◌, text_eq, text_beq_iff}
use per_node_csi_driver.Prelude.{if◌then◌else◌}

abbrev pub Map {ℓ} : Type ℓ → Type ℓ
Map V = List (Text × V)

module _ {ℓ} {V : Type ℓ} where
  -- `v, found := m[k]`
  unfoldable pub lookup : Text → Map V → Option V
  lookup key [] = none
  lookup key (entry ∷ entries) =
      let later = lookup key entries in if entry.0 == key then some entry.1 else later

  -- `m[k] = v`
  unfoldable pub insert : Text → V → Map V → Map V
  insert key value [] = (key, value) ∷ []
  insert key value (entry ∷ entries) =
      let later = insert key value entries in
      if entry.0 == key then (key, value) ∷ entries else entry ∷ later

  -- `delete(m, k)`
  unfoldable pub erase : Text → Map V → Map V
  erase k [] = []
  erase k ((j, w) ∷ m) = let rest = erase k m in if j == k then rest else (j, w) ∷ rest

  pub lookup-insert :
      (key other : Text) (value : V) (entries : Map V)
      → lookup other (insert key value entries)
        ≡ (if key == other then some value else lookup other entries)
  unfolding lookup insert
  lookup-insert key other value [] = refl
  lookup-insert key other value (entry ∷ entries) = ground (
    arith,
    text_beq_iff key other,
    text_beq_iff entry.0 key,
    text_beq_iff entry.0 other,
    lookup-insert key other value entries,
  )

  pub lookup-erase :
      (key other : Text) (entries : Map V)
      → lookup other (erase key entries) ≡ (if key == other then none else lookup other entries)
  unfolding lookup erase
  lookup-erase key other [] = ground arith
  lookup-erase key other (entry ∷ entries) = ground (
    arith,
    text_beq_iff key other,
    text_beq_iff entry.0 key,
    text_beq_iff entry.0 other,
    lookup-erase key other entries,
  )

  -- No key stands twice.
  abbrev pub NodupKeys : Map V → Type ℓ
  NodupKeys [] = Unit
  NodupKeys ((k, _) ∷ m) = (lookup k m ≡ none) × NodupKeys m

  pub insert-NodupKeys : (k : Text) (v : V) (m : Map V) → NodupKeys m → NodupKeys (insert k v m)
  unfolding insert lookup
  insert-NodupKeys k v [] h = (refl, tt)
  insert-NodupKeys k v ((j, w) ∷ m) (fresh, h) =
      ground
        (arith, insert-NodupKeys k v m h, lookup-insert k j v m, text_beq_iff j k, text_beq_iff k j)

  pub erase-NodupKeys : (k : Text) (m : Map V) → NodupKeys m → NodupKeys (erase k m)
  unfolding erase
  erase-NodupKeys k [] h = tt
  erase-NodupKeys k ((j, w) ∷ m) (fresh, h) =
      ground (arith, erase-NodupKeys k m h, lookup-erase k j m)
