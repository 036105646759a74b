-- ===== src/Store/Size.antt =====
-- The bytes of a copy, as `copySize` adds them up.
use per_node_csi_driver.Prelude.{
  ℕ, ◌+◌, ◌^◌, ◌<◌, ◌≡◌, refl, List, [], ◌∷◌, ◌++◌, map, ap, ◌∙◌, arith,
}
use per_node_csi_driver.Prelude.{if◌then◌else◌}
use per_node_csi_driver.Prelude.Exec.{Result, ok, err}
use per_node_csi_driver.Host.{Fault, FileInfo}
use native.Mathlib.Nat.{add_assoc, zero-add}
use per_node_csi_driver.Store.{int64_add, sum_sizes}

-- The sizes of the regular files, added with no limit.
unfoldable pub plain_total : List FileInfo → ℕ
plain_total [] = 0
plain_total (info ∷ infos) = (if info.is_regular then info.size else 0) + plain_total infos

abbrev counted : FileInfo → ℕ
counted info = if info.is_regular then info.size else 0

add_counted :
    (total : ℕ) (info : FileInfo)
    → total + counted info < 2 ^ 63
    → (if info.is_regular then int64_add total info.size else total) ≡ total + counted info
add_counted total info h = ground arith

sum_sizes-total_from :
    (total : ℕ) (infos : List FileInfo)
    → total + plain_total infos < 2 ^ 63
    → sum_sizes total (map ok infos) ≡ ok (total + plain_total infos)
unfolding sum_sizes plain_total
sum_sizes-total_from total [] h = ground arith
sum_sizes-total_from total (info ∷ infos) h =
    ap (λ t. sum_sizes t (map ok infos)) (add_counted total info (omega arith))
    ∙ sum_sizes-total_from (total + counted info) infos (omega arith)
    ∙ ap ok (add_assoc total (counted info) (plain_total infos))

-- The sum that `copySize` returns is exact as long as it fits an int64, and directories, links and
-- other files count nothing.
pub sum_sizes-total :
    (infos : List FileInfo)
    → plain_total infos < 2 ^ 63
    → sum_sizes 0 (map ok infos) ≡ ok (plain_total infos)
sum_sizes-total infos h = rw zero-add at (sum_sizes-total_from 0 infos (omega arith))

-- The first error of the walk is the result, whatever follows it.
pub sum_sizes-error :
    (total : ℕ) (infos : List FileInfo) (fault : Fault) (visits : List (Result Fault FileInfo))
    → sum_sizes total (map ok infos ++ err fault ∷ visits) ≡ err fault
unfolding sum_sizes
sum_sizes-error total [] fault visits = refl
sum_sizes-error total (info ∷ infos) fault visits =
    sum_sizes-error (if info.is_regular then int64_add total info.size else total) infos fault
      visits
