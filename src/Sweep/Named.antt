-- ===== src/Sweep/Named.antt =====
-- What a sweep goes by: the handles that PersistentVolumes name, those that pods hold, and where the
-- copies lie.
use mathlib.Core.List.{append_assoc, append_cancel_left}
use per_node_csi_driver.Prelude.{◌≡◌, refl, sym, ap, ◌∙◌, ◌↔◌, ◌⊎◌, inl, inr, Bool, true, false}
use per_node_csi_driver.Prelude.{none, some, List, [], ◌∷◌, ◌++◌, map, arith, Text, text_eq}
use per_node_csi_driver.Prelude.{text_beq_iff}
use per_node_csi_driver.Text.{slash, split}
use per_node_csi_driver.Text.Join.{Avoids, split-piece}
use per_node_csi_driver.Handle.Check.{IsElement}
use per_node_csi_driver.Host.{Hold}
use per_node_csi_driver.Host.Laws.{IsBelow}
use per_node_csi_driver.Map.{Map, lookup, lookup-insert}
use per_node_csi_driver.Events.{driver_name}
use per_node_csi_driver.Path.{join_path}
use per_node_csi_driver.Path.Child.{split_whole}
use per_node_csi_driver.Store.{copy_path, copies_directory}
use per_node_csi_driver.Store.Paths.{copy_path-child}
use per_node_csi_driver.Sweep.{
  Cached, other, volume, drop_managed_fields, name_handle, handles_of_from, handles_of,
}
use per_node_csi_driver.Sweep.{has}

-- The object is a PersistentVolume of this driver with this handle.
abbrev pub Names : Text → Cached → Type 0
Names h (other managed) = ⊥
Names h (volume managed none) = ⊥
Names h (volume managed (some source)) = (source.driver ≡ driver_name) × (source.volume_handle ≡ h)

abbrev pub IsNamed : Text → List Cached → Type 0
IsNamed h [] = ⊥
IsNamed h (object ∷ objects) = Names h object ⊎ IsNamed h objects

has-name_handle :
    (h : Text) (object : Cached) (named : Map Bool)
    → (has (name_handle object named) h ≡ true) ↔ ((has named h ≡ true) ⊎ Names h object)
unfolding name_handle
has-name_handle h (other managed) named = ground arith
has-name_handle h (volume managed none) named = ground arith
has-name_handle h (volume managed (some source)) named = ground (
  arith,
  text_beq_iff source.driver driver_name,
  text_beq_iff source.volume_handle h,
  lookup-insert source.volume_handle h true named,
)

has-handles_of_from :
    (h : Text) (objects : List Cached) (named : Map Bool)
    → (has (handles_of_from objects named) h ≡ true) ↔ ((has named h ≡ true) ⊎ IsNamed h objects)
unfolding handles_of_from
has-handles_of_from h [] named = ground arith
has-handles_of_from h (object ∷ objects) named = ground (
  arith,
  has-name_handle h object named,
  has-handles_of_from h objects (name_handle object named),
)

-- `handlesOf` holds exactly the handles of the PersistentVolumes that name this driver.
pub handles_of_iff :
    (h : Text) (objects : List Cached) → (has (handles_of objects) h ≡ true) ↔ IsNamed h objects
unfolding handles_of lookup
handles_of_iff h objects = ground (arith, has-handles_of_from h objects [])

pub has-held :
    (h : Text) (holds : Map Hold) (standing : Hold)
    → lookup h holds ≡ some standing
    → has (map (λ (handle, _). (handle, true)) holds) h ≡ true
unfolding lookup
has-held h [] standing e = cc
has-held h ((j, taken) ∷ holds) standing e = ground (arith, has-held h holds standing)

pub has_free :
    (h : Text) (holds : Map Hold)
    → lookup h holds ≡ none
    → has (map (λ (handle, _). (handle, true)) holds) h ≡ false
unfolding lookup
has_free h [] e = refl
has_free h ((j, taken) ∷ holds) e = ground (arith, has_free h holds)

Names-drop_managed_fields :
    (h : Text) (object : Cached) → Names h (drop_managed_fields object) ↔ Names h object
unfolding drop_managed_fields
Names-drop_managed_fields h (other none) = ground arith
Names-drop_managed_fields h (other (some managed)) = ground arith
Names-drop_managed_fields h (volume managed none) = ground arith
Names-drop_managed_fields h (volume managed (some source)) = ground arith

IsNamed-drop_managed_fields :
    (h : Text) (objects : List Cached)
    → IsNamed h (map drop_managed_fields objects) ↔ IsNamed h objects
IsNamed-drop_managed_fields h [] = ground arith
IsNamed-drop_managed_fields h (object ∷ objects) =
    ground (arith, Names-drop_managed_fields h object, IsNamed-drop_managed_fields h objects)

-- The handles that `handlesOf` takes from the informer's store, whose objects have lost their
-- managed fields, are exactly those of the PersistentVolumes that name this driver.
pub handles_of-drop_managed_fields :
    (h : Text) (objects : List Cached)
    → (has (handles_of (map drop_managed_fields objects)) h ≡ true) ↔ IsNamed h objects
handles_of-drop_managed_fields h objects = ground (
  arith,
  handles_of_iff h (map drop_managed_fields objects),
  IsNamed-drop_managed_fields h objects,
)

-- The copy of the handle, or what lies below it.
abbrev pub IsWithin : Text → Text → Text → Type 0
IsWithin root handle path = (path ≡ copy_path root handle) ⊎ IsBelow (copy_path root handle) path

first_piece :
    (a b x : Text)
    → Avoids slash a
    → (b ≡ a) ⊎ (b ≡ a ++ slash ∷ x)
    → (rest : List Text) × (split slash b ≡ a ∷ rest)
first_piece a b x h (inl e) = ([], ap (split slash) e ∙ split_whole a h)
first_piece a b x h (inr e) = (split slash x, ap (split slash) e ∙ split-piece slash a x h)

below_copy :
    (root handle path : Text)
    → IsElement handle
    → IsWithin root handle path
    → (rest : Text) × (path ≡ join_path (root ∷ copies_directory ∷ []) ++ slash ∷ rest)
      × ((pieces : List Text) × (split slash rest ≡ handle ∷ pieces))
below_copy root handle path e (inl p) =
    (handle, p ∙ copy_path-child root handle e, first_piece handle handle [] e.1 (inl refl))
below_copy root handle path e (inr (x, p)) = (
  handle ++ slash ∷ x,
  p
      ∙ ap (λ t. t ++ slash ∷ x) (copy_path-child root handle e)
      ∙ append_assoc _ (slash ∷ handle) (slash ∷ x),
  first_piece handle (handle ++ slash ∷ x) x e.1 (inr refl),
)

-- A path lies in the copy of one handle at most.
pub IsWithin-unique :
    (root a b path : Text)
    → IsElement a
    → IsElement b
    → IsWithin root a path
    → IsWithin root b path
    → a ≡ b
IsWithin-unique root a b path ea eb wa wb =
    let (x, p, (us, u)) = below_copy root a path ea wa in
    let (y, q, (vs, v)) = below_copy root b path eb wb in
    let same : slash ∷ x ≡ slash ∷ y =
      append_cancel_left (join_path (root ∷ copies_directory ∷ [])) (slash ∷ x) (slash ∷ y)
        (sym p ∙ q) in
    let tails : x ≡ y = cc same in cc (tails, u, v)
