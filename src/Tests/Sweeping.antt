-- ===== src/Tests/Sweeping.antt =====
-- Sweeps, statistics and mounts on the small machine.
use mathlib.Core.List.{Memᴰ}
use per_node_csi_driver.Prelude.{
  ◌<◌, ◌*◌, ◌^◌, ◌≡◌, refl, ◌↔◌, inl, true, none, some, List, [], ◌∷◌, arith,
}
use per_node_csi_driver.Prelude.{map, codes, text_beq, All}
use per_node_csi_driver.Prelude.Exec.{ok}
use per_node_csi_driver.Host.{FileInfo}
use per_node_csi_driver.Host.Memory.{memory, Machine}
use per_node_csi_driver.Host.Memory.Lawful.{memory-FileTable}
use per_node_csi_driver.Map.{lookup}
use per_node_csi_driver.Path.{join_path}
use per_node_csi_driver.Store.{copy_path, copies_directory, handles}
use per_node_csi_driver.Store.Size.{plain_total}
use per_node_csi_driver.Mount.{unbind}
use per_node_csi_driver.Events.{driver_name}
use per_node_csi_driver.Node.{StatsRequest}
use per_node_csi_driver.Node.Stats.{node_get_volume_stats}
use per_node_csi_driver.Node.Stats.Reported.{stats-usage}
use per_node_csi_driver.Handle.Check.{IsElement}
use per_node_csi_driver.Sweep.{Cached, volume, drop_managed_fields, handles_of, has, sweep}
use per_node_csi_driver.Sweep.Named.{IsNamed, handles_of-drop_managed_fields}
use per_node_csi_driver.Sweep.Removes.{sweep-keeps}
use per_node_csi_driver.Tests.Data.{cfg, idle, db, target}
use per_node_csi_driver.Tests.Unpublishing.{db_element}

-- The cache holds one PersistentVolume, of this driver, with the handle `db`.
abbrev objects : List Cached
objects =
    volume (codes "kube-controller-manager" ∷ [])
      (some (record { driver = driver_name; volume_handle = db }))
    ∷ []

handles_of-drop_managed_fields_example :
    (has (handles_of (map drop_managed_fields objects)) db ≡ true) ↔ IsNamed db objects
handles_of-drop_managed_fields_example = handles_of-drop_managed_fields db objects

idle_handles : handles memory cfg.root idle.os ≡ db ∷ []
unfolding handles join_path copies_directory text_beq
idle_handles = refl

All-elements : All IsElement (handles memory cfg.root idle.os)
All-elements = rw idle_handles (db_element, tt)

sweep-keeps_example :
    memory-FileTable.is_there
      (sweep memory cfg (handles_of objects) idle).os
      (copy_path cfg.root db)
    ≡ memory-FileTable.is_there idle.os (copy_path cfg.root db)
sweep-keeps_example =
    sweep-keeps memory memory-FileTable cfg objects db idle (copy_path cfg.root db) All-elements
      db_element (inl refl) (inl (inl (refl, refl)))

pub none_held : lookup db idle.holds ≡ none
unfolding lookup
none_held = refl

pub listed : Memᴰ db (handles memory cfg.root idle.os)
listed = rw idle_handles (Memᴰ.head refl)

abbrev stats_request : StatsRequest
stats_request = record { volume_id = db; volume_path = target }

abbrev ten_bytes : List FileInfo
ten_bytes = record { is_regular = true; size = 10 } ∷ []

ten_small : plain_total ten_bytes < 2 ^ 63
unfolding plain_total
ten_small = omega arith

stats-usage_example :
    let (result, e) = node_get_volume_stats memory cfg stats_request idle in
    (result ≡ ok (record { used = plain_total ten_bytes; available = 5 * 4096; total = 9 * 4096 }))
    × (lookup db e.readings.copy_bytes ≡ some (plain_total ten_bytes))
    × (e.holds ≡ idle.holds)
    × (e.os ≡ idle.os)
stats-usage_example =
    stats-usage memory cfg stats_request idle ten_bytes
      (record { block_size = 4096; available = 5; blocks = 9 }) (λ e. cc) (λ e. cc) refl refl
      ten_small (omega arith) (omega arith)

-- The copy is mounted at the target.
abbrev mounted : Machine
mounted = record idle.os {
  mounts = λ path. record { source = copy_path cfg.root db; read_only = true } ∷ [];
}

unbound : (unbind memory target mounted).0 ≡ ok tt
unfolding unbind text_beq
unbound = refl
