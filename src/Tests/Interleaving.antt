-- ===== src/Tests/Interleaving.antt =====
-- A machine whose store has the copies of `db` and `old`, and calls that run at the same time.
use per_node_csi_driver.Prelude.{
  ℕ, refl, true, arith, List, [], ◌∷◌, Text, codes, text_beq, text_ne,
}
use per_node_csi_driver.Prelude.Exec.{ok}
use per_node_csi_driver.Handle.Check.{IsElement}
use per_node_csi_driver.Host.{Host}
use per_node_csi_driver.Host.Files.{FileTable}
use per_node_csi_driver.Host.Memory.{memory}
use per_node_csi_driver.Host.Memory.Lawful.{memory-FileTable}
use per_node_csi_driver.Driver.{Driver}
use per_node_csi_driver.Calls.{Call, publish, unpublish, pass}
use per_node_csi_driver.Host.Laws.{Binding}
use per_node_csi_driver.Prelude.{◌≢◌, ◌==◌, text_eq, if◌then◌else◌}
use per_node_csi_driver.Calls.{unpublish}
use per_node_csi_driver.Node.{pod_in}
use per_node_csi_driver.Tests.Opened.{publish_on}
use per_node_csi_driver.Tests.Data.{release_a}
use per_node_csi_driver.Tests.Data.{machine, hold_of_b, request, db}
use per_node_csi_driver.Metrics.{new_metrics}

abbrev pub old : Text
old = codes "old"

abbrev pub listing : Host
listing = record memory { read_dir = λ name s. ok (db ∷ old ∷ []) }

unfoldable pub listing-FileTable : FileTable listing
unfolding memory-FileTable
listing-FileTable = record {
  is_there = λ s. s.is_there;
  remove_elsewhere = memory-FileTable.remove_elsewhere;
  remove_ok = memory-FileTable.remove_ok;
  remove_enoent = memory-FileTable.remove_enoent;
  remove_keeps_content = memory-FileTable.remove_keeps_content;
  write_file_content = memory-FileTable.write_file_content;
  unmount_elsewhere = memory-FileTable.unmount_elsewhere;
  remove_all_elsewhere = memory-FileTable.remove_all_elsewhere;
  remove_all_creates_nothing = memory-FileTable.remove_all_creates_nothing;
  remove_all_ok = memory-FileTable.remove_all_ok;
  mkdir_all_ok = memory-FileTable.mkdir_all_ok;
  mkdir_all_removes_nothing = memory-FileTable.mkdir_all_removes_nothing;
  chmod_removes_nothing = memory-FileTable.chmod_removes_nothing;
  write_file_removes_nothing = memory-FileTable.write_file_removes_nothing;
  mount_elsewhere = memory-FileTable.mount_elsewhere;
  create_temp_new = memory-FileTable.create_temp_new;
  create_temp_removes_nothing = memory-FileTable.create_temp_removes_nothing;
}

abbrev target_of_b : Text
target_of_b = codes "/u"

-- The copy of `db`, as the pod `b` sees it.
abbrev pub shown : List Binding
shown = record { source = codes "/s/copies/db"; read_only = true } ∷ []

-- The pod `b` runs with `db`.
abbrev pub running : Driver listing
running = record {
  os = record machine { mounts = λ path. if path == target_of_b then shown else [] };
  holds = (db, hold_of_b) ∷ [];
  readings = new_metrics;
  posted = [];
}

pub old_element : IsElement old
unfolding text_beq
old_element =
    (text_ne old [] refl, omega arith, text_ne old (codes ".") refl, text_ne old (codes "..") refl)

-- A publish of `db` by the pod `a`, an unpublish of it at the target of that pod, and a pass that names
-- nothing.
abbrev pub rivals : List Call
rivals = publish request ∷ unpublish release_a ∷ pass [] ∷ []

abbrev pub turns : List ℕ
turns = 2 ∷ 0 ∷ 1 ∷ 2 ∷ 0 ∷ 1 ∷ 2 ∷ 1 ∷ 0 ∷ []

pub a_ne_b : (pod_in request).uid ≢ codes "b"
unfolding publish_on
a_ne_b = text_ne (pod_in request).uid (codes "b") refl
