-- ===== src/Store.antt =====
-- store.go: the copies and the holds on the disk.
pub mod Paths
pub mod Size
use per_node_csi_driver.Prelude.{ℕ, ◌+◌, ◌*◌, ◌^◌, ◌%◌, List, [], ◌∷◌, Text, codes, if◌then◌else◌}
use per_node_csi_driver.Prelude.Exec.{Result, ok, err, Exec, ◌>>=◌, ◌>>◌}
use per_node_csi_driver.Host.{Fault, Host, FileInfo, Statfs}
use per_node_csi_driver.Path.{join_path}

-- `copiesDirectory` and `holdsDirectory`
unfoldable pub copies_directory : Text
copies_directory = codes "copies"

unfoldable pub holds_directory : Text
holds_directory = codes "holds"

-- `copyMode`
abbrev pub copy_mode : ℕ
copy_mode = 0o777

-- `copyPath` of the store at a root
unfoldable pub copy_path : Text → Text → Text
copy_path root handle = join_path (root ∷ copies_directory ∷ handle ∷ [])

-- `holdPath`
unfoldable pub hold_path : Text → Text → Text
hold_path root handle = join_path (root ∷ holds_directory ∷ handle ∷ [])

-- Sums and products of int64 values, as bit patterns.
abbrev pub int64_add : ℕ → ℕ → ℕ
int64_add a b = (a + b) % 2 ^ 64

abbrev pub int64_mul : ℕ → ℕ → ℕ
int64_mul a b = (a * b) % 2 ^ 64

-- The callback of `copySize`, over what the walk hands it. The walk ends at the first error. With
-- an error the sum is not read.
unfoldable pub sum_sizes : ℕ → List (Result Fault FileInfo) → Result Fault ℕ
sum_sizes total [] = ok total
sum_sizes total (err fault ∷ visits) = err fault
sum_sizes total (ok info ∷ visits) =
    sum_sizes (if info.is_regular then int64_add total info.size else total) visits

-- The results of `spaceOf`.
unfoldable pub space_of_statfs : Result Fault Statfs → Result Fault (ℕ × ℕ)
space_of_statfs (err fault) = err fault
space_of_statfs (ok s) = ok (int64_mul s.available s.block_size, int64_mul s.blocks s.block_size)

-- The names, or none where the directory cannot be read.
unfoldable pub names_or_none : Result Fault (List Text) → List Text
names_or_none (err fault) = []
names_or_none (ok names) = names

module _ (H : Host) (root : Text) where
  -- `makeCopy`
  unfoldable pub make_copy : Text → Exec H.State Fault Unit
  make_copy handle = do
    H.mkdir_all (copy_path root handle) copy_mode
    H.chmod (copy_path root handle) copy_mode

  -- `handles`: nil where the directory cannot be read
  unfoldable pub handles : H.State → List Text
  unfolding names_or_none
  handles s = names_or_none (H.read_dir (join_path (root ∷ copies_directory ∷ [])) s)

  -- `removeCopy`
  unfoldable pub remove_copy : Text → Exec H.State Fault Unit
  remove_copy handle = H.remove_all (copy_path root handle)

module _ (H : Host) where
  -- `copySize`
  unfoldable pub copy_size : Text → H.State → Result Fault ℕ
  unfolding sum_sizes
  copy_size directory s = sum_sizes 0 (H.walk directory s)

  -- `spaceOf`
  unfoldable pub space_of : Text → H.State → Result Fault (ℕ × ℕ)
  unfolding space_of_statfs
  space_of path s = space_of_statfs (H.statfs path s)
