-- ===== src/Node/Unpublish/Release.antt =====
-- What NodeUnpublishVolume releases, and what it leaves.
use per_node_csi_driver.Prelude.{
  ◌≡◌, refl, ◌≢◌, sym, false, Option, none, some, [], ◌∷◌, ◌++◌, arith,
}
use per_node_csi_driver.Prelude.{Text, ◌==◌, text_eq, text_beq_iff, if◌then◌else◌}
use per_node_csi_driver.Prelude.Exec.{ok}
use per_node_csi_driver.Text.{slash}
use per_node_csi_driver.Handle.Check.{IsElement}
use per_node_csi_driver.Path.{dotdot}
use per_node_csi_driver.Host.{Host, Hold}
use per_node_csi_driver.Host.Laws.{IsBelow}
use per_node_csi_driver.Host.Files.{FileTable}
use per_node_csi_driver.Map.{lookup, lookup-erase}
use per_node_csi_driver.Mount.{unbind}
use per_node_csi_driver.Store.{copy_path, hold_path, copies_directory}
use per_node_csi_driver.Store.Paths.{paths_apart, hold_path-escape}
use per_node_csi_driver.Driver.{Driver, Settings}
use per_node_csi_driver.Holds.{drop_hold, report_volumes}
use per_node_csi_driver.Node.{UnpublishRequest}
use per_node_csi_driver.Node.Unpublish.{
  remove_target, clear_target, release, give_up, node_unpublish_volume,
}

-- A hold is released by its own target alone.
abbrev pub released : Text → Option Hold → Option Hold
released target none = none
released target (some standing) = if standing.target == target then none else some standing

module _ (H : Host) (cfg : Settings) (r : UnpublishRequest) where
  give_up-holds :
      (standing : Option Hold) (d : Driver H) (j : Text)
      → lookup r.volume_id d.holds ≡ standing
      → lookup j (give_up H cfg r standing d).holds
        ≡ (if r.volume_id == j then released r.target_path standing else lookup j d.holds)
  unfolding give_up release drop_hold report_volumes
  give_up-holds none d j h = ground (arith, lookup-erase r.volume_id j d.holds)
  give_up-holds (some standing) d j h =
      ground (arith, lookup-erase r.volume_id j d.holds, text_beq_iff r.volume_id j)

  -- An unpublish that succeeds releases the hold of the handle if it names this target, keeps it if
  -- it names another, and keeps the holds of all other handles. One that fails keeps every hold.
  pub unpublish-holds :
      (d : Driver H) (j : Text)
      → let (result, e) = node_unpublish_volume H cfg r d in
        (result ≡ ok tt
          → lookup j e.holds ≡ (
              if r.volume_id == j
              then released r.target_path (lookup r.volume_id d.holds)
              else lookup j d.holds))
        × (result ≢ ok tt → e.holds ≡ d.holds)
  unfolding node_unpublish_volume
  unpublish-holds d j =
      let after : Driver H = record d { os = (clear_target H r.target_path d.os).1 } in
      ground (arith, give_up-holds (lookup r.volume_id d.holds) after j refl)

module _ (H : Host) (F : FileTable H) (cfg : Settings) (r : UnpublishRequest) where
  open F use {is_there}

  clear_target-keeps :
      (s : H.State) (path : Text)
      → r.target_path ≢ path
      → ¬ IsBelow r.target_path path
      → is_there (clear_target H r.target_path s).1 path ≡ is_there s path
  unfolding clear_target unbind remove_target
  clear_target-keeps s path other apart = ground (
    arith,
    F.unmount_elsewhere r.target_path path s apart,
    F.remove_elsewhere r.target_path path (H.unmount r.target_path 2 s).1 other,
  )

  give_up-keeps :
      (standing : Option Hold) (d : Driver H) (path : Text)
      → hold_path cfg.root r.volume_id ≢ path
      → is_there (give_up H cfg r standing d).os path ≡ is_there d.os path
  unfolding give_up release drop_hold report_volumes
  give_up-keeps none d path other =
      ground (arith, F.remove_elsewhere (hold_path cfg.root r.volume_id) path d.os other)
  give_up-keeps (some standing) d path other =
      ground (arith, F.remove_elsewhere (hold_path cfg.root r.volume_id) path d.os other)

  -- Of all paths, an unpublish can remove only the target, what the unmount uncovers below it, and
  -- the file of the hold.
  pub unpublish-keeps :
      (d : Driver H) (path : Text)
      → r.target_path ≢ path
      → ¬ IsBelow r.target_path path
      → hold_path cfg.root r.volume_id ≢ path
      → is_there (node_unpublish_volume H cfg r d).1.os path ≡ is_there d.os path
  unfolding node_unpublish_volume
  unpublish-keeps d path other apart kept =
      let after : Driver H = record d { os = (clear_target H r.target_path d.os).1 } in
      ground (
        arith,
        clear_target-keeps d.os path other apart,
        give_up-keeps (lookup r.volume_id d.holds) after path kept,
      )

  -- A copy outlives its pod: an unpublish of a handle that is one path element removes the copy of
  -- no handle, at a target that is not a copy and does not lie above it.
  pub unpublish_keeps_copies :
      (d : Driver H) (handle : Text)
      → IsElement r.volume_id
      → IsElement handle
      → r.target_path ≢ copy_path cfg.root handle
      → ¬ IsBelow r.target_path (copy_path cfg.root handle)
      → is_there (node_unpublish_volume H cfg r d).1.os (copy_path cfg.root handle)
        ≡ is_there d.os (copy_path cfg.root handle)
  unpublish_keeps_copies d handle ev eh other apart =
      unpublish-keeps d (copy_path cfg.root handle) other apart
        (λ e. (paths_apart cfg.root handle r.volume_id eh ev).2 (sym e))

module _ (H : Host) (F : FileTable H) (cfg : Settings) (handle target : Text)
    (e : IsElement handle) where
  open F use {is_there}

  -- A request to unpublish `../copies/handle`.
  abbrev pub escaping : UnpublishRequest
  escaping = record {
    volume_id = dotdot ++ slash ∷ (copies_directory ++ slash ∷ handle);
    target_path = target;
  }

  -- NodeUnpublishVolume does not check its handle. Where no hold has the name `../copies/handle`, a
  -- target is named and can be cleared, and the kernel lets the directory of the copy of `handle` be
  -- removed then, the call succeeds and the copy of `handle` is gone.
  pub unpublish_escape :
      (d : Driver H)
      → target ≢ []
      → lookup escaping.volume_id d.holds ≡ none
      → (clear_target H target d.os).0 ≡ ok tt
      → (H.remove (copy_path cfg.root handle) (clear_target H target d.os).1).0 ≡ ok tt
      → let (result, after) = node_unpublish_volume H cfg escaping d in
        (result ≡ ok tt) × (is_there after.os (copy_path cfg.root handle) ≡ false)
  unfolding node_unpublish_volume give_up release drop_hold report_volumes
  unpublish_escape d t fresh cleared removed = ground (
    arith,
    F.remove_ok (copy_path cfg.root handle) (clear_target H target d.os).1,
    hold_path-escape cfg.root handle e,
    text_beq_iff target [],
    text_beq_iff escaping.volume_id [],
  )
