-- ===== src/Handle/Shape.antt =====
-- The regular expression of handle.go against DNS-1123 subdomain names described by their parts.
use per_node_csi_driver.Prelude.{ℕ, ◌≡◌, refl, ap, ap₂, ◌∙◌, ◌↔◌, true, List, [], ◌∷◌, ◌++◌}
use per_node_csi_driver.Prelude.{◌≤◌, ◌⊎◌, inr, arith, Text, All, All-append}
use per_node_csi_driver.Regex.{class, seq, star, in_class, match_string, Matches, done, byte}
use per_node_csi_driver.Regex.{both, left, right, stop, again}
use per_node_csi_driver.Regex.Sound.{match_string_iff}
use per_node_csi_driver.Text.{dot, each_after, join}
use per_node_csi_driver.Handle.{letter_or_digit, dash_letter_or_digit, segment_shape, handle_shape}

-- A lower case letter or a digit of ASCII.
abbrev pub IsEdge : ℕ → Type 0
IsEdge c = ((97 ≤ c) × (c ≤ 122)) ⊎ ((48 ≤ c) × (c ≤ 57))

-- One of these, or the dash.
abbrev pub IsInner : ℕ → Type 0
IsInner c = (c ≡ 45) ⊎ IsEdge c

abbrev pub last : ℕ → Text → ℕ
last c [] = c
last c (d ∷ s) = last d s

-- A segment is not empty, holds letters, digits and dashes, and has no dash at either end.
abbrev pub IsSegment : Text → Type 0
IsSegment [] = ⊥
IsSegment (c ∷ s) = IsEdge c × All IsInner s × IsEdge (last c s)

-- Segments joined by dots, at least one.
abbrev pub IsSubdomain : Text → Type 0
IsSubdomain s =
    (segment : Text) × (segments : List Text) × All IsSegment (segment ∷ segments)
    × (s ≡ join dot (segment ∷ segments))

letter_or_digit_iff : (c : ℕ) → (in_class letter_or_digit c ≡ true) ↔ IsEdge c
unfolding in_class
letter_or_digit_iff c = ((λ h. ground arith), (λ h. ground arith))

dash_letter_or_digit_iff : (c : ℕ) → (in_class dash_letter_or_digit c ≡ true) ↔ IsInner c
unfolding in_class
dash_letter_or_digit_iff c = ((λ h. ground arith), (λ h. ground arith))

edge_byte : (c : ℕ) → IsEdge c → Matches (class letter_or_digit) (c ∷ [])
edge_byte c h = byte ((letter_or_digit_iff c).1 h)

class_inv :
    {ranges : List (ℕ × ℕ)} {s : Text}
    → Matches (class ranges) s
    → (c : ℕ) × (s ≡ c ∷ []) × (in_class ranges c ≡ true)
class_inv (byte {c = c} e) = (c, refl, e)

star-IsInner : {s : Text} → Matches (star (class dash_letter_or_digit)) s → All IsInner s
star-IsInner stop = tt
star-IsInner (again (byte {c = c} e) n p) = rw p ((dash_letter_or_digit_iff c).0 e, star-IsInner n)

inner_star : (s : Text) → All IsInner s → Matches (star (class dash_letter_or_digit)) s
inner_star [] h = stop
inner_star (c ∷ s) (e, h) = again (byte ((dash_letter_or_digit_iff c).1 e)) (inner_star s h) refl

last-append : (c d : ℕ) (s : Text) → last c (s ++ d ∷ []) ≡ d
last-append c d [] = refl
last-append c d (x ∷ s) = last-append x d s

IsSegment-of :
    (c d : ℕ) (s : Text) → IsEdge c → All IsInner s → IsEdge d → IsSegment (c ∷ (s ++ d ∷ []))
IsSegment-of c d s hc hs hd = (hc, All-append IsInner s (d ∷ []) hs (inr hd, tt), rw last-append hd)

IsSegment-sound : {s : Text} → Matches segment_shape s → IsSegment s
IsSegment-sound (both (byte {c = c} e) (left done) p) =
    let edge = (letter_or_digit_iff c).0 e in rw p (edge, tt, edge)
IsSegment-sound (both (byte {c = c} e) (right (both {s = s} m (byte {c = d} f) q)) p) =
    rw (p, q)
      (IsSegment-of c d s ((letter_or_digit_iff c).0 e) (star-IsInner m)
        ((letter_or_digit_iff d).0 f))

-- The text without its last byte.
abbrev front : ℕ → Text → Text
front c [] = []
front c (d ∷ s) = c ∷ front d s

front-last : (c : ℕ) (s : Text) → c ∷ s ≡ front c s ++ last c s ∷ []
front-last c [] = refl
front-last c (d ∷ s) = ap (λ t. c ∷ t) (front-last d s)

All-front : (c : ℕ) (s : Text) → All IsInner (c ∷ s) → All IsInner (front c s)
All-front c [] h = tt
All-front c (d ∷ s) (hc, h) = (hc, All-front d s h)

segment_complete : (s : Text) → IsSegment s → Matches segment_shape s
segment_complete [] h = absurd h
segment_complete (c ∷ []) (hc, _, _) = both (edge_byte c hc) (left done) refl
segment_complete (c ∷ d ∷ s) (hc, hs, hl) =
    both (edge_byte c hc)
      (right (
        both (inner_star (front d s) (All-front d s hs)) (edge_byte (last d s) hl)
          (front-last d s)))
      refl

dot_only : (c : ℕ) → in_class ((dot, dot) ∷ []) c ≡ true → c ≡ dot
unfolding in_class
dot_only c h = ground arith

dotted_inv :
    {s : Text}
    → Matches (seq (class ((dot, dot) ∷ [])) segment_shape) s
    → (segment : Text) × IsSegment segment × (s ≡ dot ∷ segment)
dotted_inv (both {t = segment} (byte {c = c} e) m p) =
    (segment, IsSegment-sound m, p ∙ ap (λ x. x ∷ segment) (dot_only c e))

dotted :
    (segment : Text)
    → IsSegment segment
    → Matches (seq (class ((dot, dot) ∷ [])) segment_shape) (dot ∷ segment)
unfolding in_class
dotted segment h = both (byte refl) (segment_complete segment h) refl

segments_sound :
    {s : Text}
    → Matches (star (seq (class ((dot, dot) ∷ [])) segment_shape)) s
    → (segments : List Text) × All IsSegment segments × (s ≡ each_after dot segments)
unfolding each_after
segments_sound stop = ([], tt, refl)
segments_sound (again {t = t} m n e) =
    let (segment, first, p) = dotted_inv m in
    let (segments, others, q) = segments_sound n in
    (segment ∷ segments, (first, others), e ∙ ap₂ (λ a b. a ++ b) p q)

segments_complete :
    (segments : List Text)
    → All IsSegment segments
    → Matches (star (seq (class ((dot, dot) ∷ [])) segment_shape)) (each_after dot segments)
unfolding each_after
segments_complete [] h = stop
segments_complete (segment ∷ segments) (first, others) =
    again (dotted segment first) (segments_complete segments others) refl

IsSubdomain-sound : {s : Text} → Matches handle_shape s → IsSubdomain s
unfolding join
IsSubdomain-sound (both {s = segment} m n p) =
    let (segments, others, q) = segments_sound n in
    (segment, segments, (IsSegment-sound m, others), p ∙ ap (λ t. segment ++ t) q)

subdomain_complete : {s : Text} → IsSubdomain s → Matches handle_shape s
unfolding join
subdomain_complete (segment, segments, (first, others), p) =
    both (segment_complete segment first) (segments_complete segments others) p

-- `MatchString` of `handleShape` holds exactly of the DNS-1123 subdomain names: one or more
-- segments joined by dots, each a letter or a digit at both ends and letters, digits and dashes
-- between them.
pub match_string-handle_shape : (s : Text) → (match_string handle_shape s ≡ true) ↔ IsSubdomain s
match_string-handle_shape s =
    let (sound, complete) = match_string_iff handle_shape s in
    (λ h. IsSubdomain-sound (sound h), λ d. complete (subdomain_complete d))
