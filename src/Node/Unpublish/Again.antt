-- ===== src/Node/Unpublish/Again.antt =====
-- An unpublish that the kubelet repeats.
use mathlib.Core.List.{append-nil, append_cancel_left}
use per_node_csi_driver.Prelude.{
  ◌≡◌, refl, ◌≢◌, ◌∙◌, false, Option, none, some, [], ◌∷◌, arith, Text, ◌==◌, text_eq, text_beq_iff,
  text_beq_self, Bool-cases, inl, inr,
}
use per_node_csi_driver.Prelude.Exec.{ok}
use per_node_csi_driver.Text.{slash}
use per_node_csi_driver.Host.{Host, Hold}
use per_node_csi_driver.Host.Laws.{MountTable, IsBelow, without_top, errno_of}
use per_node_csi_driver.Host.Files.{FileTable}
use per_node_csi_driver.Map.{lookup}
use per_node_csi_driver.Mount.{unbind}
use per_node_csi_driver.Mount.Laws.{unbind-mounts}
use per_node_csi_driver.Store.{hold_path}
use per_node_csi_driver.Driver.{Driver, Settings}
use per_node_csi_driver.Holds.{drop_hold, report_volumes}
use per_node_csi_driver.Node.{UnpublishRequest}
use per_node_csi_driver.Node.Unpublish.{
  remove_target, clear_target, release, give_up, node_unpublish_volume,
}
use per_node_csi_driver.Node.Unpublish.Release.{released, unpublish-holds}

released_twice :
    (target : Text) (standing : Option Hold)
    → released target (released target standing) ≡ released target standing
released_twice target none = refl
released_twice target (some standing) = elim (Bool-cases (standing.target == target)) [
  | inl here ↦ rw here refl
  | inr elsewhere ↦ rw (elsewhere, elsewhere) refl
]

not-IsBelow_itself : (path : Text) → ¬ IsBelow path path
not-IsBelow_itself path (rest, e) =
    let empty : [] ≡ slash ∷ rest =
      append_cancel_left path [] (slash ∷ rest) (append-nil path ∙ e) in
    cc empty

module _ (H : Host) (F : FileTable H) (T : MountTable H) (cfg : Settings)
    (r : UnpublishRequest) where
  open F use {is_there}
  open T use {mounts}

  -- Nothing is left at the target.
  abbrev pub IsClear : H.State → Type 0
  IsClear s = (mounts s r.target_path ≡ []) × (is_there s r.target_path ≡ false)

  -- The kernel says so: ENOENT of umount2(2), and of the remove.
  abbrev SaysClear : Type 0
  SaysClear =
      ((s : H.State) → IsClear s → errno_of (H.unmount r.target_path 2 s).0 ≡ 2)
      × ((s : H.State)
          → is_there s r.target_path ≡ false
          → errno_of (H.remove r.target_path s).0 ≡ 2)

  clear_target-IsClear :
      (s : H.State)
      → without_top (mounts s r.target_path) ≡ []
      → (clear_target H r.target_path s).0 ≡ ok tt
      → IsClear (clear_target H r.target_path s).1
  unfolding clear_target remove_target
  clear_target-IsClear s single h =
      let clear = (unbind H r.target_path s).1 in
      ground (
        arith,
        unbind-mounts H T r.target_path s,
        T.remove_keeps r.target_path r.target_path clear,
        F.remove_ok r.target_path clear,
        F.remove_enoent r.target_path clear,
      )

  clear_target-again :
      (s : H.State)
      → SaysClear
      → IsClear s
      → ((clear_target H r.target_path s).0 ≡ ok tt) × IsClear (clear_target H r.target_path s).1
  unfolding clear_target remove_target unbind
  clear_target-again s (unmounted, removed) (bare, gone) =
      let clear = (H.unmount r.target_path 2 s).1 in
      ground (
        arith,
        unmounted s (bare, gone),
        T.unmount_err r.target_path r.target_path s,
        F.unmount_elsewhere r.target_path r.target_path s (not-IsBelow_itself r.target_path),
        removed clear,
        T.remove_keeps r.target_path r.target_path clear,
        F.remove_enoent r.target_path clear,
      )

  give_up-IsClear :
      (standing : Option Hold) (d : Driver H)
      → hold_path cfg.root r.volume_id ≢ r.target_path
      → IsClear d.os
      → IsClear (give_up H cfg r standing d).os
  unfolding give_up release drop_hold report_volumes
  give_up-IsClear none d apart clear = ground (
    arith,
    F.remove_elsewhere (hold_path cfg.root r.volume_id) r.target_path d.os apart,
    T.remove_keeps (hold_path cfg.root r.volume_id) r.target_path d.os,
  )
  give_up-IsClear (some standing) d apart clear = ground (
    arith,
    F.remove_elsewhere (hold_path cfg.root r.volume_id) r.target_path d.os apart,
    T.remove_keeps (hold_path cfg.root r.volume_id) r.target_path d.os,
  )

  cleared : Driver H → Driver H
  cleared d = record d { os = (clear_target H r.target_path d.os).1 }

  unpublish-IsClear :
      (d : Driver H)
      → without_top (mounts d.os r.target_path) ≡ []
      → hold_path cfg.root r.volume_id ≢ r.target_path
      → (node_unpublish_volume H cfg r d).0 ≡ ok tt
      → IsClear (node_unpublish_volume H cfg r d).1.os × ((r.volume_id ≢ []) × (r.target_path ≢ []))
  unfolding node_unpublish_volume cleared
  unpublish-IsClear d single apart h = ground (
    arith,
    clear_target-IsClear d.os single,
    give_up-IsClear (lookup r.volume_id d.holds) (cleared d) apart,
    text_beq_iff r.volume_id [],
    text_beq_iff r.target_path [],
  )

  unpublish_again :
      (d : Driver H)
      → SaysClear
      → hold_path cfg.root r.volume_id ≢ r.target_path
      → (r.volume_id ≢ []) × (r.target_path ≢ [])
      → IsClear d.os
      → ((node_unpublish_volume H cfg r d).0 ≡ ok tt)
        × IsClear (node_unpublish_volume H cfg r d).1.os
  unfolding node_unpublish_volume cleared
  unpublish_again d says apart named clear = ground (
    arith,
    clear_target-again d.os says clear,
    give_up-IsClear (lookup r.volume_id d.holds) (cleared d) apart,
    text_beq_iff r.volume_id [],
    text_beq_iff r.target_path [],
  )

  -- An unpublish that succeeded can be repeated: it succeeds again, the holds of all handles stay as
  -- they were, and the target stays clear, with no mount and no directory. One mount at most was at
  -- the target, the file of the hold is not the target, and the kernel says ENOENT where the
  -- directory to unmount, or the name to remove, is not there.
  pub unpublish_retry :
      (d : Driver H) (j : Text)
      → ((s : H.State) → IsClear s → errno_of (H.unmount r.target_path 2 s).0 ≡ 2)
      → ((s : H.State)
          → is_there s r.target_path ≡ false
          → errno_of (H.remove r.target_path s).0 ≡ 2)
      → without_top (mounts d.os r.target_path) ≡ []
      → hold_path cfg.root r.volume_id ≢ r.target_path
      → (node_unpublish_volume H cfg r d).0 ≡ ok tt
      → let e = (node_unpublish_volume H cfg r d).1 in
        let (result, f) = node_unpublish_volume H cfg r e in
        (result ≡ ok tt) × IsClear f.os × (lookup j f.holds ≡ lookup j e.holds)
  unpublish_retry d j unmounted removed single apart h =
      let e = (node_unpublish_volume H cfg r d).1 in
      let (clear, named) = unpublish-IsClear d single apart h in
      let (again, still) = unpublish_again e (unmounted, removed) apart named clear in
      (
        again,
        still,
        elim (Bool-cases (r.volume_id == j)) [
          | inr other ↦ (unpublish-holds H cfg r e j).0 again ∙ rw other refl
          | inl same ↦
              let there = (text_beq_iff r.volume_id j).0 same in
              let first = (unpublish-holds H cfg r d r.volume_id).0 h in
              let second = (unpublish-holds H cfg r e r.volume_id).0 again in
              ground (
                arith,
                text_beq_self r.volume_id,
                released_twice r.target_path (lookup r.volume_id d.holds),
              )
        ],
      )
