-- ===== src/Regex/Sound.antt =====
-- The matcher of Regex.antt against the relation `Matches`.
use per_node_csi_driver.Prelude.{
  ℕ, Bool, true, false, ◌≡◌, refl, ◌↔◌, ◌⊎◌, inl, inr, ap, sym, ◌∙◌, arith,
}
use per_node_csi_driver.Prelude.{List, [], ◌∷◌, ◌++◌, Text, Bool-cases, if◌then◌else◌}
use per_node_csi_driver.Regex.{Regex, nothing, empty, class, seq, alt, star, in_class, nullable}
use per_node_csi_driver.Regex.{Matches, done, byte, both, left, right, stop, again, after}
use per_node_csi_driver.Regex.{match_string}

nullable_sound : (r : Regex) → nullable r ≡ true → Matches r []
unfolding nullable
nullable_sound nothing h = cc
nullable_sound empty h = done
nullable_sound (class ranges) h = cc
nullable_sound (seq r q) h =
    both (nullable_sound r (ground arith)) (nullable_sound q (ground arith)) refl
nullable_sound (alt r q) h = elim (Bool-cases (nullable r)) [
  | inl e ↦ left (nullable_sound r e)
  | inr e ↦ right (nullable_sound q (ground arith))
]
nullable_sound (star r) h = stop

parts_nil : (s t : Text) → [] ≡ s ++ t → (s ≡ []) × (t ≡ [])
parts_nil [] t h = (refl, cc)
parts_nil (x ∷ s) t h = cc

nullable_complete : {r : Regex} {s : Text} → Matches r s → s ≡ [] → nullable r ≡ true
unfolding nullable
nullable_complete done h = refl
nullable_complete (byte m) h = cc
nullable_complete (both {s = s} {t = t} m n e) h =
    let (es, et) = parts_nil s t (cc) in
    ground (arith, nullable_complete m es, nullable_complete n et)
nullable_complete (left m) h = ground (arith, nullable_complete m h)
nullable_complete (right m) h = ground (arith, nullable_complete m h)
nullable_complete stop h = refl
nullable_complete (again m n e) h = refl

-- The two choices that `after` makes, read back.
test_inv : (b : Bool) {s : Text} → Matches (if b then empty else nothing) s → (b ≡ true) × (s ≡ [])
test_inv true done = (refl, refl)
test_inv false m = elim m [ ]

skip_inv :
    (b : Bool) (p q : Regex) {s : Text}
    → Matches (if b then alt p q else p) s
    → Matches p s ⊎ ((b ≡ true) × Matches q s)
skip_inv true p q (left m) = inl m
skip_inv true p q (right m) = inr (refl, m)
skip_inv false p q m = inl m

skip_left : (b : Bool) (p q : Regex) {s : Text} → Matches p s → Matches (if b then alt p q else p) s
skip_left true p q m = left m
skip_left false p q m = m

skip_right :
    (b : Bool) (p q : Regex) {s : Text}
    → b ≡ true
    → Matches q s
    → Matches (if b then alt p q else p) s
skip_right true p q e m = right m
skip_right false p q e m = cc

class_byte :
    (ranges : List (ℕ × ℕ)) (c : ℕ) (s : Text)
    → (in_class ranges c ≡ true) × (s ≡ [])
    → Matches (class ranges) (c ∷ s)
class_byte ranges c s (e, nil) = rw nil (byte e)

module _ (c : ℕ) (r q : Regex) where
  seq_after :
      ((s : Text) → Matches (after c r) s → Matches r (c ∷ s))
      → ((s : Text) → Matches (after c q) s → Matches q (c ∷ s))
      → (s : Text) → Matches (seq (after c r) q) s ⊎ ((nullable r ≡ true) × Matches (after c q) s)
      → Matches (seq r q) (c ∷ s)
  seq_after first second s (inl (both m n e)) = both (first _ m) n (ap (λ t. c ∷ t) e)
  seq_after first second s (inr (e, m)) = both (nullable_sound r e) (second s m) refl

after_sound : (c : ℕ) (r : Regex) (s : Text) → Matches (after c r) s → Matches r (c ∷ s)
unfolding after
after_sound c nothing s m = elim m [ ]
after_sound c empty s m = elim m [ ]
after_sound c (class ranges) s m = class_byte ranges c s (test_inv (in_class ranges c) m)
after_sound c (seq r q) s m =
    seq_after c r q (after_sound c r) (after_sound c q) s
      (skip_inv (nullable r) (seq (after c r) q) (after c q) m)
after_sound c (alt r q) s (left m) = left (after_sound c r s m)
after_sound c (alt r q) s (right m) = right (after_sound c q s m)
after_sound c (star r) s (both m n e) = again (after_sound c r _ m) n (ap (λ t. c ∷ t) e)

byte_after :
    (ranges : List (ℕ × ℕ)) (c : ℕ) (s : Text)
    → in_class ranges c ≡ true
    → s ≡ []
    → Matches (after c (class ranges)) s
unfolding after
byte_after ranges c s e nil = rw (e, nil) done

-- The first part of a sequence takes the byte, or matches nothing.
after_both :
    (c : ℕ) (r q : Regex) (s t u : Text)
    → ((v : Text) → s ≡ c ∷ v → Matches (after c r) v)
    → ((v : Text) → t ≡ c ∷ v → Matches (after c q) v)
    → Matches r s
    → Matches q t
    → c ∷ u ≡ s ++ t
    → Matches (after c (seq r q)) u
unfolding after
after_both c r q [] t u first second m n e =
    skip_right (nullable r) (seq (after c r) q) (after c q) (nullable_complete m refl)
      (second u (sym e))
after_both c r q (d ∷ s) t u first second m n e =
    skip_left (nullable r) (seq (after c r) q) (after c q) (both (first s (cc)) n (cc))

after_complete :
    (c : ℕ) {r : Regex} {w : Text} (s : Text) → Matches r w → w ≡ c ∷ s → Matches (after c r) s
unfolding after
after_complete c s done h = cc
after_complete c s (byte {ranges = ranges} {c = d} e) h = byte_after ranges c s (ground arith) (cc)
after_complete c u (both {r = r} {q = q} {s = s} {t = t} m n e) h =
    after_both c r q s t u (λ v p. after_complete c v m p) (λ v p. after_complete c v n p) m n
      (sym h ∙ e)
after_complete c s (left m) h = left (after_complete c s m h)
after_complete c s (right m) h = right (after_complete c s m h)
after_complete c s stop h = cc
after_complete c s (again {r = r} {s = first} {t = t} m n e) h =
    both {s = first} (after_complete c first m (cc)) n (cc)

match_string_sound : (r : Regex) (s : Text) → match_string r s ≡ true → Matches r s
unfolding match_string
match_string_sound r [] h = nullable_sound r h
match_string_sound r (c ∷ s) h = after_sound c r s (match_string_sound (after c r) s h)

match_string_complete : (r : Regex) (s : Text) → Matches r s → match_string r s ≡ true
unfolding match_string
match_string_complete r [] m = nullable_complete m refl
match_string_complete r (c ∷ s) m = match_string_complete (after c r) s (after_complete c s m refl)

-- The matcher says true exactly of the texts that match.
pub match_string_iff : (r : Regex) (s : Text) → (match_string r s ≡ true) ↔ Matches r s
match_string_iff r s = (match_string_sound r s, match_string_complete r s)
