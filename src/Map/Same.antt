-- ===== src/Map/Same.antt =====
-- Two maps with the same entries, in any order.
use per_node_csi_driver.Prelude.{
  suc, ◌≡◌, refl, sym, ◌∙◌, ap, none, some, [], ◌∷◌, arith, Text, length, text_eq, text_beq_iff,
  text_beq_self,
}
use per_node_csi_driver.Map.{
  Map, lookup, insert, erase, lookup-insert, lookup-erase, NodupKeys, insert-NodupKeys,
  erase-NodupKeys,
}

module _ {ℓ} {V : Type ℓ} where
  -- No key stands twice in either, and both have the same value under every key.
  abbrev pub SameEntries : Map V → Map V → Type ℓ
  SameEntries m n = NodupKeys m × NodupKeys n × ((k : Text) → lookup k m ≡ lookup k n)

  pub insert-SameEntries :
      (k : Text) (v : V) (m n : Map V) → SameEntries m n → SameEntries (insert k v m) (insert k v n)
  insert-SameEntries k v m n (p, q, same) = (
    insert-NodupKeys k v m p,
    insert-NodupKeys k v n q,
    λ j. rw (lookup-insert k j v m, lookup-insert k j v n, same j) refl,
  )

  pub erase-SameEntries :
      (k : Text) (m n : Map V) → SameEntries m n → SameEntries (erase k m) (erase k n)
  erase-SameEntries k m n (p, q, same) = (
    erase-NodupKeys k m p,
    erase-NodupKeys k n q,
    λ j. rw (lookup-erase k j m, lookup-erase k j n, same j) refl,
  )

  erase_free : (k : Text) (m : Map V) → lookup k m ≡ none → erase k m ≡ m
  unfolding lookup erase
  erase_free k [] free = refl
  erase_free k ((j, w) ∷ m) free = ground (arith, erase_free k m)

  length-erase :
      (k : Text) (v : V) (m : Map V)
      → NodupKeys m
      → lookup k m ≡ some v
      → length m ≡ suc (length (erase k m))
  unfolding lookup erase
  length-erase k v [] nodup found = cc
  length-erase k v ((j, w) ∷ m) (fresh, nodup) found =
      ground (arith, length-erase k v m nodup, erase_free k m, text_beq_iff j k)

  entry-found : (k : Text) (v : V) (m : Map V) → lookup k ((k, v) ∷ m) ≡ some v
  unfolding lookup
  entry-found k v m = ground (arith, text_beq_self k)

  rest-erase : (k : Text) (v : V) (m : Map V) → lookup k m ≡ none → erase k ((k, v) ∷ m) ≡ m
  unfolding erase
  rest-erase k v m free = ground (arith, text_beq_self k, erase_free k m)

  -- Two such maps have the same number of entries.
  pub length-SameEntries : (m n : Map V) → SameEntries m n → length m ≡ length n
  unfolding lookup
  length-SameEntries [] [] same = refl
  length-SameEntries [] ((k, v) ∷ n) (p, q, same) = absurd (cc (same k, entry-found k v n))
  length-SameEntries ((k, v) ∷ m) n ((fresh, p), q, same) =
      let found = sym (same k) ∙ entry-found k v m in
      let rest = length-SameEntries m (erase k n) (
        p,
        erase-NodupKeys k n q,
        λ j.
            ap (lookup j) (sym (rest-erase k v m fresh))
            ∙ lookup-erase k j ((k, v) ∷ m)
            ∙ rw (same j) (sym (lookup-erase k j n)),
      ) in
      omega (arith, rest, length-erase k v n q found)
