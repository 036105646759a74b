-- ===== src/Host/Memory.antt =====
-- A small machine on which the assumptions hold: files and mounts as functions of the path.
pub mod Lawful
use per_node_csi_driver.Prelude.{
  ℕ, ◌≡◌, refl, ◌≢◌, Bool, true, false, ◌||◌, Option, none, some, List, [], ◌∷◌, ◌++◌,
}
use per_node_csi_driver.Prelude.{
  arith, Text, ap, codes, ◌==◌, nat_eq, text_eq, text_beq_iff, text_beq_self,
}
use per_node_csi_driver.Prelude.{if◌then◌else◌}
use per_node_csi_driver.Prelude.Exec.{Result, ok, err, Exec}
use per_node_csi_driver.Text.{slash, cut_prefix, split, join}
use per_node_csi_driver.Host.{Host, Hold, Fault, FileInfo, Statfs}
use per_node_csi_driver.Host.Laws.{
  Binding, MountTable, IsBelow, set_read_only, without_top, errno_of,
}
use per_node_csi_driver.Host.Files.{FileTable}

pub record Machine : Type 0 where
  pub mounts : Text → List Binding
  pub is_there : Text → Bool
  pub content : Text → Option Text
  pub names : Text → List Text

abbrev pub set {ℓ} : {A : Type ℓ} → Text → A → (Text → A) → Text → A
set name value f path = if name == path then value else f path

abbrev pub no_such_file : Fault
no_such_file = record { errno = 2; message = codes "no such file or directory" }

abbrev pub file_exists : Fault
file_exists = record { errno = 17; message = codes "file exists" }

abbrev pub not_mounted : Fault
not_mounted = record { errno = 22; message = codes "invalid argument" }

abbrev pub is_prefix : Option Text → Bool
is_prefix none = false
is_prefix (some rest) = true

-- The path is the name or lies below it.
unfoldable pub is_within : Text → Text → Bool
is_within name path = name == path || is_prefix (cut_prefix path (name ++ slash ∷ []))

abbrev pub make : Text → Exec Machine Fault Unit
make name s = (ok tt, record s { is_there = set name true s.is_there })

abbrev pub make_new : Text → Exec Machine Fault Text
make_new name s = if s.is_there name then (err file_exists, s) else (ok name, (make name s).1)

abbrev pub remove : Text → Exec Machine Fault Unit
remove name s =
    if s.is_there name
    then (
      ok tt,
      record s { is_there = set name false s.is_there; content = set name none s.content },
    )
    else (err no_such_file, s)

unfoldable pub remove_all : Text → Exec Machine Fault Unit
remove_all name s =
    (ok tt, record s { is_there = λ path. if is_within name path then false else s.is_there path })

abbrev pub write : Text → Text → Exec Machine Fault Unit
write name text s = (
  ok tt,
  record s { is_there = set name true s.is_there; content = set name (some text) s.content },
)

abbrev pub read : Option Text → Result Fault Text
read none = err no_such_file
read (some text) = ok text

abbrev pub mount : Text → Text → ℕ → Exec Machine Fault Unit
mount source target flags s =
    if flags == 4096
    then (
      ok tt,
      record s {
        mounts =
            set target (record { source = source; read_only = false } ∷ s.mounts target) s.mounts;
      },
    )
    else (ok tt, record s { mounts = set target (set_read_only (s.mounts target)) s.mounts })

abbrev pub unmount_list : List Binding → Text → Exec Machine Fault Unit
unmount_list [] target s = (err (if s.is_there target then not_mounted else no_such_file), s)
unmount_list (top ∷ others) target s = (ok tt, record s { mounts = set target others s.mounts })

abbrev pub unmount : Text → Exec Machine Fault Unit
unmount target s = unmount_list (s.mounts target) target s

-- Four texts with a byte 0 between them stand for JSON.
abbrev pub encode : Hold → Text
encode h = join 0 (h.pod_uid ∷ h.pod_name ∷ h.pod_namespace ∷ h.target ∷ [])

abbrev pub decode : List Text → Result Fault Hold
decode (a ∷ b ∷ c ∷ d ∷ []) =
    ok (record { pod_uid = a; pod_name = b; pod_namespace = c; target = d })
decode other = err no_such_file

abbrev pub memory : Host
memory = record {
  State = Machine;
  mkdir_all = λ name _. make name;
  chmod = λ _ _ s. (ok tt, s);
  remove = remove;
  remove_all = remove_all;
  write_file = λ name text _. write name text;
  read_file = λ name s. read (s.content name);
  read_dir = λ name s. ok (s.names name);
  create_temp = λ directory name. make_new (directory ++ slash ∷ name);
  walk = λ directory s. ok (record { is_regular = true; size = 10 }) ∷ [];
  statfs = λ _ _. ok (record { block_size = 4096; available = 5; blocks = 9 });
  mount = λ source target _ flags _. mount source target flags;
  unmount = λ target _. unmount target;
  now = λ s. 0;
  quoted = λ text. text;
  marshal = λ h. ok (encode h);
  unmarshal = λ text. decode (split 0 text);
}
