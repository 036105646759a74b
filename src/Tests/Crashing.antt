-- ===== src/Tests/Crashing.antt =====
-- A machine that publishes its mount table in a file, as the kernel does, and lists the directories of
-- the store.
use per_node_csi_driver.Prelude.{
  ◌≡◌, refl, ◌≢◌, arith, List, [], ◌∷◌, Text, All, codes, text_beq, text_ne, inl, length, ◌<◌,
}
use per_node_csi_driver.Prelude.{◌==◌, text_eq, text_beq_iff, text_beq_self, if◌then◌else◌}
use per_node_csi_driver.Prelude.Exec.{Exec, ok, err}
use per_node_csi_driver.Host.{Host, Fault}
use per_node_csi_driver.Host.Laws.{Binding, MountTable}
use per_node_csi_driver.Host.Files.{FileTable}
use per_node_csi_driver.Host.Disk.{DiskFile, PublishedMounts, ListedDirectory}
use per_node_csi_driver.Host.Memory.{
  Machine, memory, read, write, not_mounted, unmount_list, remove_all,
}
use per_node_csi_driver.Host.Memory.Lawful.{memory-FileTable, memory-MountTable}
use per_node_csi_driver.Holds.MountInfo.RoundTrip.{Entry, IsEntry, line_of, escape, escape_byte}
use per_node_csi_driver.Holds.MountInfo.Table.{table_of, IsPoint}
use per_node_csi_driver.Path.{join_path}
use per_node_csi_driver.Store.{holds_directory}
use per_node_csi_driver.Tests.Data.{cfg, db}
use per_node_csi_driver.Tests.Interleaving.{old, old_element}
use per_node_csi_driver.Tests.Unpublishing.{db_element}

abbrev pub target_of_b : Text
target_of_b = codes "/u"

abbrev pub mount_of_b : Entry
mount_of_b = record {
  mount_id = codes "36";
  parent_id = codes "35";
  device = codes "98:0";
  subtree = codes "/";
  point = target_of_b;
  options = codes "rw - ext4 /dev/sda rw";
}

abbrev lines_of : List Binding → List Entry
lines_of [] = []
lines_of (top ∷ others) = mount_of_b ∷ []

abbrev write_disk : Text → Text → Exec Machine Fault Unit
write_disk name text s = if name == cfg.mountinfo then (err not_mounted, s) else write name text s

abbrev pub published : Host
published = record memory {
  read_file = λ name s.
      if name == cfg.mountinfo
      then ok (table_of (lines_of (s.mounts target_of_b)))
      else read (s.content name);
  write_file = λ name text _. write_disk name text;
  read_dir = λ name s. ok (db ∷ old ∷ []);
}

unfoldable pub published-FileTable : FileTable published
unfolding memory-FileTable
published-FileTable = record {
  is_there = λ s. s.is_there;
  remove_elsewhere = memory-FileTable.remove_elsewhere;
  remove_ok = memory-FileTable.remove_ok;
  remove_enoent = memory-FileTable.remove_enoent;
  remove_keeps_content = λ name path s h. ground (arith, text_beq_iff name path);
  write_file_content =
      λ name content mode s h. ground (arith, text_beq_self name, text_beq_iff name cfg.mountinfo);
  unmount_elsewhere = memory-FileTable.unmount_elsewhere;
  remove_all_elsewhere = memory-FileTable.remove_all_elsewhere;
  remove_all_creates_nothing = memory-FileTable.remove_all_creates_nothing;
  remove_all_ok = memory-FileTable.remove_all_ok;
  mkdir_all_ok = memory-FileTable.mkdir_all_ok;
  mkdir_all_removes_nothing = memory-FileTable.mkdir_all_removes_nothing;
  chmod_removes_nothing = memory-FileTable.chmod_removes_nothing;
  write_file_removes_nothing = λ name content path mode s h. ground arith;
  mount_elsewhere = memory-FileTable.mount_elsewhere;
  create_temp_new = memory-FileTable.create_temp_new;
  create_temp_removes_nothing = memory-FileTable.create_temp_removes_nothing;
}

unfoldable pub published-MountTable : MountTable published
unfolding memory-MountTable
published-MountTable = record {
  mounts = λ s. s.mounts;
  bind_ok = memory-MountTable.bind_ok;
  remount_ok = memory-MountTable.remount_ok;
  mount_err = memory-MountTable.mount_err;
  unmount_ok = memory-MountTable.unmount_ok;
  unmount_elsewhere = memory-MountTable.unmount_elsewhere;
  unmount_err = memory-MountTable.unmount_err;
  unmount_einval = memory-MountTable.unmount_einval;
  unmount_enoent = memory-MountTable.unmount_enoent;
  mkdir_all_keeps = memory-MountTable.mkdir_all_keeps;
  chmod_keeps = memory-MountTable.chmod_keeps;
  remove_keeps = memory-MountTable.remove_keeps;
  write_file_keeps = λ name content path mode s. ground arith;
  remove_all_keeps = memory-MountTable.remove_all_keeps;
}

short : length (line_of mount_of_b) < 65536
unfolding line_of escape escape_byte
short = omega arith

pub mount_of_b-IsEntry : IsEntry mount_of_b
mount_of_b-IsEntry = record {
  mount_id_word = (λ e. cc, ground arith);
  parent_id_word = (λ e. cc, ground arith);
  device_word = (λ e. cc, ground arith);
  subtree_word = (λ e. cc, ground arith);
  point_nonempty = λ e. cc;
  point_bytes = ground arith;
  options_line = omega arith;
  line_fits = short;
}

lines_of-IsEntry : (mounts : List Binding) → All IsEntry (lines_of mounts)
lines_of-IsEntry [] = tt
lines_of-IsEntry (top ∷ others) = (mount_of_b-IsEntry, tt)

lines_of-IsPoint : (mounts : List Binding) → mounts ≢ [] → IsPoint target_of_b (lines_of mounts)
lines_of-IsPoint [] h = absurd (h refl)
lines_of-IsPoint (top ∷ others) h = inl refl

pub published_mounts : PublishedMounts published published-MountTable cfg.mountinfo target_of_b
unfolding published-MountTable text_beq
published_mounts = record {
  entries = λ s. lines_of (s.mounts target_of_b);
  entries_written = λ s. lines_of-IsEntry (s.mounts target_of_b);
  published = λ s. refl;
  has_point = λ s. lines_of-IsPoint (s.mounts target_of_b);
}

unmount_keeps_content :
    (points : List Binding) (target path : Text) (s : Machine)
    → (unmount_list points target s).1.content path ≡ s.content path
unmount_keeps_content [] target path s = refl
unmount_keeps_content (top ∷ others) target path s = refl

pub disk_file : (path : Text) → path ≢ cfg.mountinfo → DiskFile published path
unfolding remove_all
disk_file path other = record {
  mkdir_all_keeps = λ directory content mode s kept. kept;
  chmod_keeps = λ name content mode s apart above kept. kept;
  write_file_keeps = λ name text content mode s apart kept.
      ground (arith, text_beq_iff name path, text_beq_iff path cfg.mountinfo);
  mount_keeps = λ source target content flags s apart above kept.
      ground (arith, text_beq_iff path cfg.mountinfo);
  unmount_keeps = λ target content s apart above kept. ground (
    arith,
    text_beq_iff path cfg.mountinfo,
    unmount_keeps_content (s.mounts target) target path s,
  );
  remove_all_keeps =
      λ name content s apart above kept. ground (arith, text_beq_iff path cfg.mountinfo);
}

pub listed_holds : ListedDirectory published (join_path (cfg.root ∷ holds_directory ∷ [])) db
unfolding text_beq
listed_holds = record {
  lists = λ content s there.
      (db ∷ old ∷ [], refl, (db_element, (old_element, tt)), inl (refl, (text_ne old db refl, tt)));
}
