-- ===== src/Sweep.antt =====
-- sweep.go: the pass that removes the copies of volumes that are gone.
pub mod Named
pub mod Removes
use per_node_csi_driver.Prelude.{Bool, true, false, ◌||◌, Option, none, some, List, [], ◌∷◌, Text}
use per_node_csi_driver.Prelude.{not, ◌==◌, text_eq, if◌then◌else◌}
use per_node_csi_driver.Prelude.Exec.{Result, ok, err}
use per_node_csi_driver.Host.{Fault, Host}
use per_node_csi_driver.Map.{Map, lookup, insert}
use per_node_csi_driver.Metrics.{forget}
use per_node_csi_driver.Events.{driver_name}
use per_node_csi_driver.Store.{handles, remove_copy}
use per_node_csi_driver.Driver.{Driver, Settings, on_readings}
use per_node_csi_driver.Holds.{held_handles}

-- `Spec.CSI` of a PersistentVolume
pub record CsiSource : Type 0 where
  pub driver : Text
  pub volume_handle : Text

-- An object of the informer's cache: a PersistentVolume, whose `Spec.CSI` may be nil, or another,
-- which is a `metav1.Object` or not. A `metav1.Object` has managed fields.
pub data Cached : Type 0 where
  other : Option (List Text) → Cached
  volume : List Text → Option CsiSource → Cached

-- `dropManagedFields`
unfoldable pub drop_managed_fields : Cached → Cached
drop_managed_fields (other none) = other none
drop_managed_fields (other (some managed)) = other (some [])
drop_managed_fields (volume managed source) = volume [] source

-- One round of the loop of `handlesOf`.
unfoldable pub name_handle : Cached → Map Bool → Map Bool
name_handle (other managed) named = named
name_handle (volume managed none) named = named
name_handle (volume managed (some source)) named =
    if not (source.driver == driver_name) then named else insert source.volume_handle true named

unfoldable pub handles_of_from : List Cached → Map Bool → Map Bool
handles_of_from [] named = named
handles_of_from (object ∷ objects) named = handles_of_from objects (name_handle object named)

-- `handlesOf`
unfoldable pub handles_of : List Cached → Map Bool
handles_of objects = handles_of_from objects []

-- `m[k]` of a map of Booleans: false where the key is not there.
abbrev pub or_false : Option Bool → Bool
or_false none = false
or_false (some b) = b

abbrev pub has : Map Bool → Text → Bool
has m k = or_false (lookup k m)

module _ (H : Host) (cfg : Settings) where
  unfoldable pub swept : Text → Result Fault Unit → Driver H → Driver H
  swept handle (err fault) d = d
  swept handle (ok tt) d = on_readings (forget handle) d

  -- One copy that nothing names or holds.
  unfoldable pub sweep_copy : Text → Driver H → Driver H
  unfolding swept
  sweep_copy handle d =
      let (result, s) = remove_copy H cfg.root handle d.os in
      swept handle result (record d { os = s })

  -- The loop of `sweep`, over the handles that have a copy.
  unfoldable pub sweep_copies : Map Bool → Map Bool → List Text → Driver H → Driver H
  sweep_copies named held [] d = d
  sweep_copies named held (handle ∷ copies) d =
      sweep_copies named held copies
        (if has named handle || has held handle then d else sweep_copy handle d)

  -- `sweep`
  unfoldable pub sweep : Map Bool → Driver H → Driver H
  sweep named d = sweep_copies named (held_handles d) (handles H cfg.root d.os) d
