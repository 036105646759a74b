-- ===== src/Tests/Restarting.antt =====
-- A restart on a machine that has the file and the mount of one hold.
use per_node_csi_driver.Prelude.{
  ◌≡◌, ◌≢◌, ◌↔◌, refl, inl, none, some, List, [], ◌∷◌, All, Text, codes, ◌==◌, text_eq,
}
use per_node_csi_driver.Prelude.{if◌then◌else◌, text_beq, text_ne}
use per_node_csi_driver.Prelude.Exec.{ok}
use per_node_csi_driver.Handle.Check.{IsElement}
use per_node_csi_driver.Host.Memory.{Machine, encode}
use per_node_csi_driver.Map.{lookup}
use per_node_csi_driver.Path.{join_path}
use per_node_csi_driver.Text.{split, split_first, join}
use per_node_csi_driver.Store.{hold_path, holds_directory}
use per_node_csi_driver.Holds.MountInfo.RoundTrip.{Entry, IsEntry}
use per_node_csi_driver.Holds.MountInfo.Table.{table_of, IsPoint}
use per_node_csi_driver.Holds.Resume.{Once}
use per_node_csi_driver.Calls.{start}
use per_node_csi_driver.Calls.Restart.{start-holds}
use per_node_csi_driver.Tests.Data.{cfg, machine, hold_of_b, db}
use per_node_csi_driver.Tests.Unpublishing.{db_element}
use per_node_csi_driver.Tests.Interleaving.{shown, old, old_element}
use per_node_csi_driver.Tests.Crashing.{
  published, published-FileTable, target_of_b, mount_of_b, mount_of_b-IsEntry,
}

-- The pod `b` has its copy at its target, and the file of its hold is there.
abbrev left_over : Machine
left_over = record machine {
  mounts = λ path. if path == target_of_b then shown else [];
  content = λ path. if path == codes "/s/holds/db" then some (encode hold_of_b) else none;
}

abbrev entries : List Text
entries = db ∷ old ∷ []

abbrev points : List Entry
points = mount_of_b ∷ []

elements : All IsElement entries
elements = (db_element, (old_element, tt))

apart : All (λ other. hold_path cfg.root other ≢ cfg.mountinfo) entries
unfolding hold_path join_path holds_directory text_beq
apart = (
  text_ne (codes "/s/holds/db") cfg.mountinfo refl,
  (text_ne (codes "/s/holds/old") cfg.mountinfo refl, tt),
)

once : Once db entries
unfolding text_beq
once = inl (refl, (text_ne old db refl, tt))

table : published.read_file cfg.mountinfo left_over ≡ ok (table_of points)
unfolding text_beq
table = refl

points-IsEntry : All IsEntry points
points-IsEntry = (mount_of_b-IsEntry, tt)

start-holds_example : (lookup db (start published cfg left_over).holds ≡ some hold_of_b) ↔ (
    (content : Text) × (published.read_file (hold_path cfg.root db) left_over ≡ ok content)
    × (published.unmarshal content ≡ ok hold_of_b)
    × IsPoint hold_of_b.target points)
start-holds_example =
    start-holds published published-FileTable cfg left_over entries db points hold_of_b refl
      db_element elements apart once table points-IsEntry

-- The hold is taken back.
taken_back : lookup db (start published cfg left_over).holds ≡ some hold_of_b
unfolding hold_path join_path holds_directory split split_first join text_beq
taken_back = start-holds_example.1 (encode hold_of_b, refl, refl, inl refl)
