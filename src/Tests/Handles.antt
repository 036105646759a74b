-- ===== src/Tests/Handles.antt =====
-- Handles, paths and the mount table at concrete texts.
use per_node_csi_driver.Prelude.{◌≤◌, ◌<◌, ◌≡◌, refl, ◌≢◌, ◌↔◌, true, false, [], ◌∷◌, arith}
use per_node_csi_driver.Prelude.{Text, codes, text_beq, length, List}
use per_node_csi_driver.Prelude.Exec.{ok}
use per_node_csi_driver.Regex.{match_string}
use per_node_csi_driver.Handle.{check_handle}
use per_node_csi_driver.Handle.Shape.{IsSubdomain}
use per_node_csi_driver.Handle.Check.{check_handle_iff, IsElement, check_handle-IsElement}
use per_node_csi_driver.Host.{Fault, FileInfo}
use per_node_csi_driver.Store.{copy_path, hold_path}
use per_node_csi_driver.Store.Paths.{paths_apart}
use per_node_csi_driver.Holds.MountInfo.{mounted_in}
use per_node_csi_driver.Holds.MountInfo.RoundTrip.{escape, Entry, IsEntry, line_of}
use per_node_csi_driver.Holds.MountInfo.Table.{table_of, IsPoint, mounted_in-table_of}
use per_node_csi_driver.Tests.Data.{cfg, db}
use per_node_csi_driver.Tests.Unpublishing.{db_element}

abbrev plain : Text → Text
plain text = text

abbrev upper : Text
upper = codes "Db"

check_handle_iff_example : (check_handle plain db ≡ ok tt) ↔ (IsSubdomain db × (length db ≤ 253))
check_handle_iff_example = check_handle_iff plain db

db_accepted : check_handle plain db ≡ ok tt
unfolding check_handle match_string text_beq
db_accepted = refl

check_handle-IsElement_example : IsElement db
check_handle-IsElement_example = check_handle-IsElement plain db db_accepted

abbrev cache : Text
cache = codes "cache.v2"

cache_accepted : check_handle plain cache ≡ ok tt
unfolding check_handle match_string text_beq
cache_accepted = refl

cache_element : IsElement cache
cache_element = check_handle-IsElement plain cache cache_accepted

paths_apart_example :
    (copy_path cfg.root db ≡ copy_path cfg.root cache → db ≡ cache)
    × (hold_path cfg.root db ≡ hold_path cfg.root cache → db ≡ cache)
    × (copy_path cfg.root db ≢ hold_path cfg.root cache)
paths_apart_example = paths_apart cfg.root db cache db_element cache_element

abbrev spaced : Text
spaced = codes "/a b\\c"

abbrev entry : Entry
entry = record {
  mount_id = codes "36";
  parent_id = codes "35";
  device = codes "98:0";
  subtree = codes "/";
  point = spaced;
  options = codes "rw - ext4 /dev/sda rw";
}

short : length (line_of entry) < 65536
unfolding line_of escape
short = omega arith

entry-IsEntry : IsEntry entry
entry-IsEntry = record {
  mount_id_word = (λ e. cc, ground arith);
  parent_id_word = (λ e. cc, ground arith);
  device_word = (λ e. cc, ground arith);
  subtree_word = (λ e. cc, ground arith);
  point_nonempty = λ e. cc;
  point_bytes = ground arith;
  options_line = omega arith;
  line_fits = short;
}

mounted_in-table_of_example :
    (mounted_in (table_of (entry ∷ [])) spaced ≡ true) ↔ IsPoint spaced (entry ∷ [])
mounted_in-table_of_example = mounted_in-table_of (entry ∷ []) spaced (entry-IsEntry, tt)

abbrev infos : List FileInfo
infos = record { is_regular = true; size = 10 } ∷ record { is_regular = false; size = 4096 } ∷ []

abbrev denied : Fault
denied = record { errno = 13; message = codes "permission denied" }
