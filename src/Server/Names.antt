-- ===== src/Server/Names.antt =====
-- The kind under which a call is measured, and what is measured.
use per_node_csi_driver.Prelude.{◌≡◌, refl, none, some, [], ◌∷◌, ◌++◌, Text, arith}
use per_node_csi_driver.Prelude.{nat_eq}
use per_node_csi_driver.Text.{slash}
use per_node_csi_driver.Text.Join.{Avoids}
use per_node_csi_driver.Server.{after_last, operation_name}

after_last_plain : (name : Text) → Avoids slash name → after_last name ≡ none
unfolding after_last
after_last_plain [] h = refl
after_last_plain (c ∷ name) (hc, h) = ground (arith, after_last_plain name h)

after_last-append :
    (prefix name : Text) → Avoids slash name → after_last (prefix ++ slash ∷ name) ≡ some name
unfolding after_last
after_last-append [] name h = ground (arith, after_last_plain name h)
after_last-append (c ∷ prefix) name h = ground (arith, after_last-append prefix name h)

-- Of `/csi.v1.Node/NodePublishVolume`, and of any method after a slash, the kind is what follows
-- the last slash. A name without a slash is its own kind.
pub operation_name-last :
    (prefix name : Text)
    → Avoids slash name
    → (operation_name (prefix ++ slash ∷ name) ≡ name) × (operation_name name ≡ name)
unfolding operation_name
operation_name-last prefix name h =
    ground (arith, after_last-append prefix name h, after_last_plain name h)
