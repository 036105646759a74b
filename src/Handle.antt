-- ===== src/Handle.antt =====
-- handle.go: which volume handles the driver accepts.
pub mod Shape
pub mod Check
use per_node_csi_driver.Prelude.{ℕ, Bool, not, List, [], ◌∷◌, ◌++◌, Text, codes, ltb, length}
use per_node_csi_driver.Prelude.{◌==◌, text_eq, if◌then◌else◌}
use per_node_csi_driver.Prelude.Exec.{Result, ok, err}
use per_node_csi_driver.Regex.{Regex, empty, class, seq, alt, star, match_string}
use per_node_csi_driver.Status.{Status, invalid_argument}
use per_node_csi_driver.Text.{dot, decimal}

-- `handleLimit`
abbrev pub handle_limit : ℕ
handle_limit = 253

abbrev pub letter_or_digit : List (ℕ × ℕ)
letter_or_digit = (b'a', b'z') ∷ (b'0', b'9') ∷ []

abbrev pub dash_letter_or_digit : List (ℕ × ℕ)
dash_letter_or_digit = (b'-', b'-') ∷ letter_or_digit

-- `[a-z0-9]([-a-z0-9]*[a-z0-9])?`, which the expression holds twice.
abbrev pub segment_shape : Regex
segment_shape =
    seq (class letter_or_digit)
      (alt empty (seq (star (class dash_letter_or_digit)) (class letter_or_digit)))

-- `handleShape`
abbrev pub handle_shape : Regex
handle_shape = seq segment_shape (star (seq (class ((dot, dot) ∷ [])) segment_shape))

-- `volume_id: the call names no volume`
unfoldable pub no_volume : Status
no_volume = record {
  code = invalid_argument;
  message = codes "volume_id: the call names no volume";
}

-- `quoted` is fmt's `%q`, of which only the messages depend.
unfoldable pub too_long : (Text → Text) → Text → Status
too_long quoted handle = record {
  code = invalid_argument;
  message =
      codes "volume_id: "
      ++ (quoted handle
          ++ (codes " is "
              ++ (decimal (length handle)
                  ++ (codes " characters, and a handle takes at most " ++ decimal handle_limit))));
}

unfoldable pub not_a_subdomain : (Text → Text) → Text → Status
not_a_subdomain quoted handle = record {
  code = invalid_argument;
  message = codes "volume_id: " ++ (quoted handle ++ codes " is not a DNS-1123 subdomain name");
}

-- `checkHandle`
unfoldable pub check_handle : (Text → Text) → Text → Result Status Unit
check_handle quoted handle =
    if handle == []
    then err no_volume
    else if ltb handle_limit (length handle)
    then err (too_long quoted handle)
    else if not (match_string handle_shape handle)
    then err (not_a_subdomain quoted handle)
    else ok tt
