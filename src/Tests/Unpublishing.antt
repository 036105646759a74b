-- ===== src/Tests/Unpublishing.antt =====
-- Unpublishes of `db`.
use per_node_csi_driver.Prelude.{
  ℕ, ap, false, text_ne, ◌≡◌, refl, ◌≢◌, none, [], ◌∷◌, codes, text_beq, arith, Text, ◌==◌, text_eq,
}
use per_node_csi_driver.Prelude.{if◌then◌else◌}
use per_node_csi_driver.Prelude.Exec.{ok}
use per_node_csi_driver.Handle.Check.{IsElement}
use per_node_csi_driver.Path.{join_path}
use per_node_csi_driver.Host.Memory.{memory}
use per_node_csi_driver.Host.Memory.Lawful.{memory-FileTable}
use per_node_csi_driver.Host.Laws.{IsBelow}
use per_node_csi_driver.Map.{lookup}
use per_node_csi_driver.Store.{copy_path, copies_directory}
use per_node_csi_driver.Mount.{unbind}
use per_node_csi_driver.Node.Unpublish.{clear_target, remove_target, node_unpublish_volume}
use per_node_csi_driver.Node.Unpublish.Release.{
  released, unpublish-holds, unpublish_keeps_copies, escaping, unpublish_escape,
}
use per_node_csi_driver.Prelude.{true, ◌∷◌}
use per_node_csi_driver.Host.Memory.{Machine, set}
use per_node_csi_driver.Host.Memory.Lawful.{memory-MountTable}
use per_node_csi_driver.Host.Laws.{without_top, errno_of}
use per_node_csi_driver.Store.{hold_path, holds_directory}
use per_node_csi_driver.Driver.{Driver}
use per_node_csi_driver.Node.Unpublish.Again.{IsClear, unpublish_retry}
use per_node_csi_driver.Tests.Data.{machine, release_b, cfg, idle, taken, db, target, release_a}

pub db_element : IsElement db
unfolding text_beq
db_element =
    (text_ne db [] refl, omega arith, text_ne db (codes ".") refl, text_ne db (codes "..") refl)

unpublish-holds_example :
    let (result, e) = node_unpublish_volume memory cfg release_a taken in
    (result ≡ ok tt
      → lookup db e.holds
        ≡ (if db == db then released target (lookup db taken.holds) else lookup db taken.holds))
    × (result ≢ ok tt → e.holds ≡ taken.holds)
unpublish-holds_example = unpublish-holds memory cfg release_a taken db

pub target_ne_copy : target ≢ copy_path cfg.root db
unfolding copy_path join_path copies_directory text_beq
target_ne_copy = text_ne target (codes "/s/copies/db") refl

second : Text → ℕ
second (a ∷ b ∷ rest) = b
second other = 0

t_ne_s : ◌≢◌ {A = ℕ} b's' b't'
t_ne_s e = omega arith

pub target_apart : ¬ IsBelow target (copy_path cfg.root db)
unfolding copy_path join_path copies_directory second text_beq
target_apart (rest, e) = t_ne_s (ap second e)

unpublish_keeps_copies_example :
    memory-FileTable.is_there
      (node_unpublish_volume memory cfg release_a taken).1.os
      (copy_path cfg.root db)
    ≡ memory-FileTable.is_there taken.os (copy_path cfg.root db)
unpublish_keeps_copies_example =
    unpublish_keeps_copies memory memory-FileTable cfg release_a taken db db_element db_element
      target_ne_copy target_apart

target_given : target ≢ []
unfolding text_beq
target_given = text_ne target [] refl

cleared : (clear_target memory target idle.os).0 ≡ ok tt
unfolding clear_target unbind remove_target text_beq
cleared = refl

free :
    lookup (escaping memory memory-FileTable cfg db target db_element).volume_id idle.holds ≡ none
unfolding lookup
free = refl

-- The machine has the copy, and lets it go.
copy_removed :
    (memory.remove (copy_path cfg.root db) (clear_target memory target idle.os).1).0 ≡ ok tt
unfolding copy_path join_path copies_directory clear_target unbind remove_target text_beq
copy_removed = refl

unpublish_escape_example :
    let (result, after) =
      node_unpublish_volume memory cfg
        (escaping memory memory-FileTable cfg db target db_element)
        idle in
    (result ≡ ok tt) × (memory-FileTable.is_there after.os (copy_path cfg.root db) ≡ false)
unpublish_escape_example =
    unpublish_escape memory memory-FileTable cfg db target db_element idle target_given free cleared
      copy_removed

-- The pod `b` has a mount and a directory at its target.
abbrev mounted : Driver memory
mounted = record taken {
  os = record machine {
    mounts =
        set (codes "/u") (record { source = codes "/s/copies/db"; read_only = true } ∷ [])
          machine.mounts;
    is_there = set (codes "/u") true machine.is_there;
  };
}

hold_ne_target : hold_path cfg.root db ≢ codes "/u"
unfolding hold_path join_path holds_directory text_beq
hold_ne_target = text_ne (codes "/s/holds/db") (codes "/u") refl

given_up : (node_unpublish_volume memory cfg release_b mounted).0 ≡ ok tt
unfolding node_unpublish_volume clear_target remove_target unbind lookup text_beq
given_up = refl

one_mount : without_top (memory-MountTable.mounts mounted.os (codes "/u")) ≡ []
unfolding memory-MountTable text_beq
one_mount = refl

nothing_mounted :
    (s : Machine)
    → IsClear memory memory-FileTable memory-MountTable cfg release_b s
    → errno_of (memory.unmount (codes "/u") 2 s).0 ≡ 2
unfolding memory-MountTable memory-FileTable
nothing_mounted s (bare, gone) = rw (bare, gone) refl

says_enoent :
    (s : Machine)
    → memory-FileTable.is_there s (codes "/u") ≡ false
    → errno_of (memory.remove (codes "/u") s).0 ≡ 2
unfolding memory-FileTable
says_enoent s e = rw e refl

unpublish_retry_example :
    let e = (node_unpublish_volume memory cfg release_b mounted).1 in
    let (result, f) = node_unpublish_volume memory cfg release_b e in
    (result ≡ ok tt)
    × IsClear memory memory-FileTable memory-MountTable cfg release_b f.os
    × (lookup db f.holds ≡ lookup db e.holds)
unpublish_retry_example =
    unpublish_retry memory memory-FileTable memory-MountTable cfg release_b mounted db
      nothing_mounted says_enoent one_mount hold_ne_target given_up
