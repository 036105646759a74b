-- ===== src/Handle/Check.antt =====
-- What a handle that passes the check is like.
use per_node_csi_driver.Prelude.{ℕ, ◌≤◌, ◌≡◌, ◌≢◌, ◌↔◌, true}
use per_node_csi_driver.Prelude.{List, [], ◌∷◌, arith, Text, All, All-append, length}
use per_node_csi_driver.Prelude.{text_eq, text_beq_iff}
use per_node_csi_driver.Prelude.Exec.{ok, OnError}
use per_node_csi_driver.Regex.{match_string}
use per_node_csi_driver.Status.{invalid_argument}
use per_node_csi_driver.Text.{slash, dot, each_after, join}
use per_node_csi_driver.Text.Join.{Avoids}
use per_node_csi_driver.Handle.{handle_limit, handle_shape, check_handle}
use per_node_csi_driver.Handle.{no_volume, too_long, not_a_subdomain}
use per_node_csi_driver.Handle.Shape.{
  IsInner, IsEdge, IsSegment, IsSubdomain, match_string-handle_shape,
}

subdomain_nonempty : (s : Text) → IsSubdomain s → s ≢ []
unfolding join
subdomain_nonempty s ([], segments, (first, others), p) e = first
subdomain_nonempty s (c ∷ segment, segments, h, p) e = cc

module _ (quoted : Text → Text) (handle : Text) where
  accepted_shape :
      check_handle quoted handle ≡ ok tt
      → (match_string handle_shape handle ≡ true) × (length handle ≤ handle_limit)
  unfolding check_handle
  accepted_shape h = ground arith

  shape_accepted :
      handle ≢ []
      → match_string handle_shape handle ≡ true
      → length handle ≤ handle_limit
      → check_handle quoted handle ≡ ok tt
  unfolding check_handle
  shape_accepted nonempty m h = ground (arith, text_beq_iff handle [])

  -- `checkHandle` accepts a handle exactly when it is a DNS-1123 subdomain name of at most 253
  -- bytes: segments joined by dots, each with a lower case letter (97 to 122) or a digit (48 to 57)
  -- at both ends and only these and dashes (45) between them.
  pub check_handle_iff :
      (check_handle quoted handle ≡ ok tt) ↔ (IsSubdomain handle × (length handle ≤ 253))
  check_handle_iff = (
    λ h. ((match_string-handle_shape handle).0 (accepted_shape h).0, (accepted_shape h).1),
    λ (d, h).
        shape_accepted (subdomain_nonempty handle d) ((match_string-handle_shape handle).1 d) h,
  )

  pub refusal_code : OnError (λ s. s.code ≡ invalid_argument) (check_handle quoted handle)
  unfolding check_handle no_volume too_long not_a_subdomain
  refusal_code = ground arith

inner_ne_slash : (c : ℕ) → IsInner c → c ≢ slash
inner_ne_slash c h e = ground arith

edge_ne_dot : (c : ℕ) → IsEdge c → c ≢ dot
edge_ne_dot c h e = ground arith

inner-Avoids : (s : Text) → All IsInner s → Avoids slash s
inner-Avoids [] h = tt
inner-Avoids (c ∷ s) (e, h) = (inner_ne_slash c e, inner-Avoids s h)

edge_ne_slash : (c : ℕ) → IsEdge c → c ≢ slash
edge_ne_slash c h e = ground arith

segment-Avoids : (s : Text) → IsSegment s → Avoids slash s
segment-Avoids [] h = tt
segment-Avoids (c ∷ s) (first, inner, _) = (edge_ne_slash c first, inner-Avoids s inner)

segments_avoid :
    (segments : List Text) → All IsSegment segments → Avoids slash (each_after dot segments)
unfolding each_after
segments_avoid [] h = tt
segments_avoid (s ∷ segments) (first, others) = (
  omega arith,
  All-append (λ c. c ≢ slash) s (each_after dot segments) (segment-Avoids s first)
      (segments_avoid segments others),
)

-- One path element under a directory: not empty, no slash, and neither `.` nor `..`.
abbrev pub IsElement : Text → Type 0
IsElement s = (s ≢ []) × Avoids slash s × (s ≢ dot ∷ []) × (s ≢ dot ∷ dot ∷ [])

subdomain_element : (s : Text) → IsSubdomain s → IsElement s
unfolding join
subdomain_element s ([], segments, (first, others), p) = absurd first
subdomain_element s (c ∷ segment, segments, (first, others), p) = (
  λ e. cc,
  rw p (
      All-append (λ c. c ≢ slash) (c ∷ segment) (each_after dot segments)
        (segment-Avoids (c ∷ segment) first) (segments_avoid segments others)),
  λ e. edge_ne_dot c first.0 (cc),
  λ e. edge_ne_dot c first.0 (cc),
)

-- A handle that `checkHandle` accepts is one path element, so it names an entry of a directory.
pub check_handle-IsElement :
    (quoted : Text → Text) (handle : Text) → check_handle quoted handle ≡ ok tt → IsElement handle
check_handle-IsElement quoted handle h =
    subdomain_element handle ((check_handle_iff quoted handle).0 h).0
