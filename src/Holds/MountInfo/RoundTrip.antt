-- ===== src/Holds/MountInfo/RoundTrip.antt =====
-- The table as the kernel writes it, and what `mountedIn` reads back from it.
use mathlib.Core.List.{append-nil, append_assoc}
use per_node_csi_driver.Prelude.{ℕ, ◌<◌, ◌≡◌, refl, ◌≢◌, ap, ◌∙◌, ◌⊎◌}
use per_node_csi_driver.Prelude.{some, [], ◌∷◌, ◌++◌, arith}
use per_node_csi_driver.Prelude.{Text, codes, All, All-append, length, ◌==◌, nat_eq, text_eq}
use per_node_csi_driver.Prelude.{if◌then◌else◌}
use per_node_csi_driver.Text.Join.{Avoids}
use per_node_csi_driver.Holds.MountInfo.{
  newline, backslash, buffer_size, space_width, flush, fields_from,
}
use per_node_csi_driver.Holds.MountInfo.{fields, escaped_byte, unescape, drop_return}
use per_node_csi_driver.Holds.MountInfo.{names_path}

-- The kernel's escapes in a mount point: space, tab, newline and backslash, in octal.
unfoldable pub escape_byte : ℕ → Text
escape_byte c =
    if c == 32
    then codes "\\040"
    else if c == 9
    then codes "\\011"
    else if c == 10
    then codes "\\012"
    else if c == backslash
    then codes "\\134"
    else c ∷ []

unfoldable pub escape : Text → Text
unfolding escape_byte
escape [] = []
escape (c ∷ s) = escape_byte c ++ escape s

unescape_plain : (c : ℕ) (s : Text) → c ≢ backslash → unescape (c ∷ s) ≡ c ∷ unescape s
unfolding unescape
unescape_plain c [] h = refl
unescape_plain c (x ∷ []) h = refl
unescape_plain c (x ∷ y ∷ []) h = refl
unescape_plain c (x ∷ y ∷ z ∷ s) h = ground arith

unescape_escaped :
    (a b c d x : ℕ) (s : Text)
    → escaped_byte a b c d ≡ some x
    → unescape (a ∷ b ∷ c ∷ d ∷ s) ≡ x ∷ unescape s
unfolding unescape
unescape_escaped a b c d x s h = ground arith

unescape-escape_byte : (c : ℕ) (s : Text) → unescape (escape_byte c ++ s) ≡ c ∷ unescape s
unfolding escape_byte escaped_byte
unescape-escape_byte c s = ground (
  arith,
  unescape_escaped 92 48 52 48 32 s refl,
  unescape_escaped 92 48 49 49 9 s refl,
  unescape_escaped 92 48 49 50 10 s refl,
  unescape_escaped 92 49 51 52 92 s refl,
  unescape_plain c s,
)

-- `mountEscapes` undoes the kernel's escapes, for every path.
pub unescape-escape : (path : Text) → unescape (escape path) ≡ path
unfolding escape
unescape-escape [] = unfold unescape in refl
unescape-escape (c ∷ path) =
    unescape-escape_byte c (escape path) ∙ ap (λ s. c ∷ s) (unescape-escape path)

-- A byte of ASCII that is not white space.
abbrev pub IsWordByte : ℕ → Type 0
IsWordByte c = (c < 128) × (c ≢ 32) × ((c < 9) ⊎ (13 < c))

abbrev pub IsWord : Text → Type 0
IsWord s = (s ≢ []) × All IsWordByte s

space_width_word : (c : ℕ) (s : Text) → IsWordByte c → space_width c s ≡ 0
unfolding space_width
space_width_word c s h = ground arith

space_width_space : (s : Text) → space_width 32 s ≡ 1
unfolding space_width
space_width_space s = refl

fields_from-word :
    (word rest s : Text)
    → All IsWordByte rest
    → fields_from 0 word (rest ++ 32 ∷ s) ≡ flush (word ++ rest) (fields_from 0 [] s)
unfolding fields_from
fields_from-word word [] s h = rw (space_width_space s, append-nil)
fields_from-word word (c ∷ rest) s (hc, h) = rw (space_width_word c (rest ++ 32 ∷ s) hc) (
    fields_from-word (word ++ c ∷ []) rest s h
    ∙ ap (λ w. flush w (fields_from 0 [] s)) (append_assoc word (c ∷ []) rest))

fields_word : (word s : Text) → IsWord word → fields (word ++ 32 ∷ s) ≡ word ∷ fields s
unfolding fields
fields_word [] s (n, h) = absurd (n refl)
fields_word (c ∷ word) s (n, h) = fields_from-word [] (c ∷ word) s h

drop_return_space : (word s : Text) → drop_return (word ++ 32 ∷ s) ≡ word ++ 32 ∷ drop_return s
unfolding drop_return
drop_return_space [] [] = refl
drop_return_space [] (c ∷ s) = refl
drop_return_space (c ∷ []) s = ap (λ t. c ∷ t) (drop_return_space [] s)
drop_return_space (c ∷ d ∷ word) s = ap (λ t. c ∷ t) (drop_return_space (d ∷ word) s)

-- One line of mountinfo: four words, the mount point, and the rest.
pub record Entry : Type 0 where
  pub mount_id : Text
  pub parent_id : Text
  pub device : Text
  pub subtree : Text
  pub point : Text
  pub options : Text

unfoldable pub line_of : Entry → Text
unfolding escape
line_of e =
    e.mount_id
    ++ 32
      ∷ (e.parent_id
          ++ 32 ∷ (e.device ++ 32 ∷ (e.subtree ++ 32 ∷ (escape e.point ++ 32 ∷ e.options))))

-- ASCII with no vertical tab, form feed or carriage return, which the kernel does not escape.
abbrev pub IsPathByte : ℕ → Type 0
IsPathByte c = (c < 128) × ((c < 11) ⊎ (13 < c))

pub record IsEntry (e : Entry) : Type 0 where
  pub mount_id_word : IsWord e.mount_id
  pub parent_id_word : IsWord e.parent_id
  pub device_word : IsWord e.device
  pub subtree_word : IsWord e.subtree
  pub point_nonempty : e.point ≢ []
  pub point_bytes : All IsPathByte e.point
  pub options_line : Avoids newline e.options
  pub line_fits : length (line_of e) < buffer_size

escape_byte_word : (c : ℕ) → IsPathByte c → All IsWordByte (escape_byte c)
unfolding escape_byte
escape_byte_word c h = ground arith

escape_bytes : (path : Text) → All IsPathByte path → All IsWordByte (escape path)
unfolding escape
escape_bytes [] h = tt
escape_bytes (c ∷ path) (hc, h) =
    All-append IsWordByte (escape_byte c) (escape path) (escape_byte_word c hc)
      (escape_bytes path h)

escape_byte_nonempty : (c : ℕ) → escape_byte c ≢ []
unfolding escape_byte
escape_byte_nonempty c h = ground arith

escape_nonempty : (path : Text) → path ≢ [] → escape path ≢ []
unfolding escape
escape_nonempty [] n h = n refl
escape_nonempty (c ∷ path) n h =
    escape_byte_nonempty c (nil_of_append (escape_byte c) (escape path) h)
  where
    nil_of_append : (x y : Text) → x ++ y ≡ [] → x ≡ []
    nil_of_append [] y e = refl
    nil_of_append (d ∷ x) y e = cc

pub point-IsWord : {e : Entry} → IsEntry e → IsWord (escape e.point)
point-IsWord h = (escape_nonempty _ h.point_nonempty, escape_bytes _ h.point_bytes)

-- The fifth word of the line, read back, is the mount point.
pub names_path-line_of :
    (e : Entry) (path : Text)
    → IsEntry e
    → names_path (fields (drop_return (line_of e))) path ≡ (e.point == path)
unfolding line_of names_path
names_path-line_of e path h = simp drop_return_space (
    rw (
      fields_word e.mount_id _ h.mount_id_word,
      fields_word e.parent_id _ h.parent_id_word,
      fields_word e.device _ h.device_word,
      fields_word e.subtree _ h.subtree_word,
      fields_word (escape e.point) _ (point-IsWord h),
      unescape-escape e.point,
    ))
