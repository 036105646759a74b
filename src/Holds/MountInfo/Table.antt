-- ===== src/Holds/MountInfo/Table.antt =====
-- A whole mountinfo table as the kernel writes it, and `mountedIn` on it.
use per_node_csi_driver.Prelude.{◌≡◌, refl, ◌≢◌, ap, ◌∙◌, ◌↔◌, ◌⊎◌, true}
use per_node_csi_driver.Prelude.{List, [], ◌∷◌, ◌++◌, map, arith, Text, All, All-append}
use per_node_csi_driver.Prelude.{nat_eq, text_eq, text_beq_iff}
use per_node_csi_driver.Text.{split, split_first}
use per_node_csi_driver.Text.Join.{Avoids, split-piece}
use per_node_csi_driver.Holds.MountInfo.{newline, drop_last_empty}
use per_node_csi_driver.Holds.MountInfo.{mounted_lines, mounted_in}
use per_node_csi_driver.Holds.MountInfo.RoundTrip.{IsWordByte, Entry, IsEntry, line_of, escape}
use per_node_csi_driver.Holds.MountInfo.RoundTrip.{point-IsWord, names_path-line_of}

word-Avoids : (s : Text) → All IsWordByte s → Avoids newline s
word-Avoids [] h = tt
word-Avoids (c ∷ s) (hc, h) = (λ e. ground arith, word-Avoids s h)

append-Avoids : (s t : Text) → Avoids newline s → Avoids newline t → Avoids newline (s ++ 32 ∷ t)
append-Avoids s t hs ht = All-append (λ c. c ≢ newline) s (32 ∷ t) hs (omega arith, ht)

line_of-Avoids : (e : Entry) → IsEntry e → Avoids newline (line_of e)
unfolding line_of
line_of-Avoids e h = append-Avoids e.mount_id _ (word-Avoids _ h.mount_id_word.1) (
    append-Avoids e.parent_id _ (word-Avoids _ h.parent_id_word.1) (
      append-Avoids e.device _ (word-Avoids _ h.device_word.1) (
        append-Avoids e.subtree _ (word-Avoids _ h.subtree_word.1)
          (append-Avoids (escape e.point) _ (word-Avoids _ (point-IsWord h).1) h.options_line))))

-- Every line with its newline.
unfoldable pub table_of : List Entry → Text
unfolding line_of
table_of [] = []
table_of (e ∷ entries) = line_of e ++ newline ∷ table_of entries

-- Some entry has the path as its mount point.
abbrev pub IsPoint : Text → List Entry → Type 0
IsPoint path [] = ⊥
IsPoint path (e ∷ entries) = (e.point ≡ path) ⊎ IsPoint path entries

lines : List Entry → List Text
lines [] = [] ∷ []
lines (e ∷ entries) = line_of e ∷ lines entries

split-table_of :
    (entries : List Entry) → All IsEntry entries → split newline (table_of entries) ≡ lines entries
unfolding table_of lines
split-table_of [] h = unfold split split_first in refl
split-table_of (e ∷ entries) (he, h) =
    split-piece newline (line_of e) (table_of entries) (line_of-Avoids e he)
    ∙ ap (λ rest. line_of e ∷ rest) (split-table_of entries h)

drop_last_empty-lines :
    (entries : List Entry) → drop_last_empty (lines entries) ≡ map line_of entries
unfolding lines drop_last_empty
drop_last_empty-lines [] = refl
drop_last_empty-lines (e ∷ []) = ground arith
drop_last_empty-lines (e ∷ f ∷ entries) = ground (arith, drop_last_empty-lines (f ∷ entries))

mounted_lines-map :
    (entries : List Entry) (path : Text)
    → All IsEntry entries
    → (mounted_lines (map line_of entries) path ≡ true) ↔ IsPoint path entries
unfolding mounted_lines
mounted_lines-map [] path h = (λ e. cc, λ e. absurd e)
mounted_lines-map (e ∷ entries) path (he, h) = ground (
  arith,
  he.line_fits,
  names_path-line_of e path he,
  text_beq_iff e.point path,
  mounted_lines-map entries path h,
)

-- Of a table of lines that the kernel writes, each with an ASCII mount point and shorter than the
-- scanner's buffer, `mountedIn` finds exactly the mount points, escaped bytes included.
pub mounted_in-table_of :
    (entries : List Entry) (path : Text)
    → All IsEntry entries
    → (mounted_in (table_of entries) path ≡ true) ↔ IsPoint path entries
mounted_in-table_of entries path h =
    let found = mounted_lines-map entries path h in
    rw
      (
        mounted_in_lem (table_of entries) path,
        split-table_of entries h,
        drop_last_empty-lines entries,
      )
      found
  where
    mounted_in_lem :
        (table path : Text)
        → mounted_in table path ≡ mounted_lines (drop_last_empty (split newline table)) path
    mounted_in_lem table path = unfold mounted_in in refl
