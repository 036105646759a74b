-- ===== src/Holds/MountInfo.antt =====
-- `mountedIn` of holds.go: the mount points that /proc/self/mountinfo lists, with the parts of
-- bufio.Scanner, strings.Fields and strings.Replacer that it uses.
pub mod RoundTrip
pub mod Table
use per_node_csi_driver.Prelude.{ℕ, zero, suc, ◌-◌, Bool, true, false, not, ◌&&◌, ◌||◌}
use per_node_csi_driver.Prelude.{Option, none, some, List, [], ◌∷◌, ◌++◌, Text, length, leb}
use per_node_csi_driver.Prelude.{◌==◌, nat_eq, text_eq, if◌then◌else◌}
use per_node_csi_driver.Text.{split}

abbrev pub newline : ℕ
newline = 10

abbrev pub backslash : ℕ
backslash = 92

-- `bufio.MaxScanTokenSize`: a line that fills the buffer ends the scan.
abbrev pub buffer_size : ℕ
buffer_size = 65536

ascii_space : ℕ → Bool
ascii_space c = c == 32 || (leb 9 c && leb c 13)

next_byte : Text → ℕ
next_byte [] = 0
next_byte (c ∷ s) = c

-- The white space outside ASCII that `unicode.IsSpace` knows, in UTF-8: U+0085 and U+00A0, then
-- U+1680, U+2000 to U+200A, U+2028, U+2029, U+202F, U+205F and U+3000.
two_byte_space : ℕ → ℕ → Bool
two_byte_space a b = a == 0xC2 && (b == 0x85 || b == 0xA0)

three_byte_space : ℕ → ℕ → ℕ → Bool
three_byte_space a b c =
    (a == 0xE1 && (b == 0x9A && c == 0x80))
    || ((a == 0xE2
          && ((b == 0x80 && ((leb 0x80 c && leb c 0x8A) || (c == 0xA8 || (c == 0xA9 || c == 0xAF))))
              || (b == 0x81 && c == 0x9F)))
        || (a == 0xE3 && (b == 0x80 && c == 0x80)))

third_byte : Text → ℕ
third_byte [] = 0
third_byte (b ∷ s) = next_byte s

-- How many bytes of white space the text begins with: those of one character, or none.
unfoldable pub space_width : ℕ → Text → ℕ
unfolding ascii_space two_byte_space three_byte_space next_byte third_byte
space_width a s =
    if ascii_space a
    then 1
    else if two_byte_space a (next_byte s)
    then 2
    else if three_byte_space a (next_byte s) (third_byte s)
    then 3
    else 0

-- A word that has ended, unless it is empty.
abbrev pub flush : Text → List Text → List Text
flush [] words = words
flush word words = word ∷ words

-- The walk of `strings.Fields`: the bytes of a space still to skip, and the word so far.
unfoldable pub fields_from : ℕ → Text → Text → List Text
fields_from skip word [] = flush word []
fields_from (suc skip) word (c ∷ s) = fields_from skip word s
fields_from zero word (c ∷ s) =
    let width = space_width c s in
    let within = fields_from zero (word ++ c ∷ []) s in
    let behind = fields_from (width - 1) [] s in if width == 0 then within else flush word behind

-- `strings.Fields`
unfoldable pub fields : Text → List Text
unfolding fields_from space_width
fields s = fields_from 0 [] s

-- What `mountEscapes` writes for four bytes, if they are one of its escapes.
unfoldable pub escaped_byte : ℕ → ℕ → ℕ → ℕ → Option ℕ
escaped_byte a b c d =
    if not (a == backslash)
    then none
    else if b == b'0' && (c == b'4' && d == b'0')
    then some 32
    else if b == b'0' && (c == b'1' && d == b'1')
    then some 9
    else if b == b'0' && (c == b'1' && d == b'2')
    then some 10
    else if b == b'1' && (c == b'3' && d == b'4')
    then some backslash
    else none

-- `mountEscapes.Replace`
unfoldable pub unescape : Text → Text
unfolding escaped_byte
unescape (a ∷ b ∷ c ∷ d ∷ s) =
    let whole = unescape s in
    let single = unescape (b ∷ c ∷ d ∷ s) in
    elim (escaped_byte a b c d) [ some x ↦ x ∷ whole | none ↦ a ∷ single ]
unescape s = s

-- `bufio.ScanLines`: no line behind the last newline, and no carriage return at a line's end.
unfoldable pub drop_last_empty : List Text → List Text
drop_last_empty [] = []
drop_last_empty ([] ∷ []) = []
drop_last_empty (line ∷ lines) = line ∷ drop_last_empty lines

unfoldable pub drop_return : Text → Text
drop_return [] = []
drop_return (c ∷ []) = if c == 13 then [] else c ∷ []
drop_return (c ∷ s) = c ∷ drop_return s

-- `len(fields) > 4 && mountEscapes.Replace(fields[4]) == path`
unfoldable pub names_path : List Text → Text → Bool
unfolding unescape
names_path (a ∷ b ∷ c ∷ d ∷ point ∷ others) path = unescape point == path
names_path words path = false

unfoldable pub mounted_lines : List Text → Text → Bool
unfolding drop_return fields names_path
mounted_lines [] path = false
mounted_lines (line ∷ lines) path =
    if leb buffer_size (length line)
    then false
    else names_path (fields (drop_return line)) path || mounted_lines lines path

-- `mountedIn`
unfoldable pub mounted_in : Text → Text → Bool
unfolding mounted_lines drop_last_empty split
mounted_in table path = mounted_lines (drop_last_empty (split newline table)) path
