-- ===== src/Concurrent/Running/Needs.antt =====
-- What a pod that runs needs of the machine, and why the calls of the kernel that the driver makes for
-- others leave it.
use per_node_csi_driver.Prelude.{
  ℕ, ◌≡◌, refl, ◌≢◌, ◌∙◌, sym, true, inl, inr, List, [], Text, arith, text_eq, text_beq_iff,
}
use per_node_csi_driver.Handle.Check.{IsElement}
use per_node_csi_driver.Host.{Host}
use per_node_csi_driver.Host.Laws.{Binding, MountTable, IsBelow}
use per_node_csi_driver.Host.Files.{FileTable}
use per_node_csi_driver.Store.{copy_path, hold_path, remove_copy}
use per_node_csi_driver.Store.Paths.{paths_apart}
use per_node_csi_driver.Sweep.Named.{IsWithin-unique}

-- Nothing that the driver does at other targets and with other handles breaks it.
pub record Spares (H : Host) (root j : Text) (Q : H.State → Type 0) (Apart : Text → Type 0)
    : Type 0 where
  pub mkdir_all :
      (directory : Text) (mode : ℕ) (s : H.State) → Q s → Q (H.mkdir_all directory mode s).1
  pub chmod_copy :
      (handle : Text) (mode : ℕ)
      → IsElement handle
      → (s : H.State) → Q s
      → Q (H.chmod (copy_path root handle) mode s).1
  pub write_hold :
      (handle content : Text)
      → handle ≢ j
      → IsElement handle
      → (s : H.State) → Q s
      → Q (H.write_file (hold_path root handle) content 0o600 s).1
  pub bind :
      (source target : Text)
      → Apart target
      → (s : H.State) → Q s
      → Q (H.mount source target [] 4096 [] s).1
  pub remount :
      (source target : Text)
      → Apart target
      → (s : H.State) → Q s
      → Q (H.mount source target [] 4129 [] s).1
  pub unmount : (target : Text) → Apart target → (s : H.State) → Q s → Q (H.unmount target 2 s).1
  pub remove : (target : Text) → Apart target → (s : H.State) → Q s → Q (H.remove target s).1
  pub remove_hold :
      (handle : Text)
      → handle ≢ j
      → IsElement handle
      → (s : H.State) → Q s
      → Q (H.remove (hold_path root handle) s).1
  pub remove_copy :
      (handle : Text)
      → handle ≢ j
      → IsElement handle
      → (s : H.State) → Q s
      → Q (remove_copy H root handle s).1

-- A target that neither is the path nor lies above it.
abbrev pub IsAway : Text → Text → Type 0
IsAway path target = (target ≢ path) × ¬ IsBelow target path

module _ (H : Host) (F : FileTable H) (T : MountTable H) (root j path : Text)
    (bindings : List Binding) (ej : IsElement j) where
  open F use {is_there}
  open T use {mounts}

  -- The copy is there, and the mounts at the path.
  abbrev pub IsProvided : H.State → Type 0
  IsProvided s = (is_there s (copy_path root j) ≡ true) × (mounts s path ≡ bindings)

  -- A target of others.
  abbrev pub IsApart : Text → Type 0
  IsApart target = IsAway (copy_path root j) target × IsAway path target

  bind_elsewhere :
      (source target : Text)
      → target ≢ path
      → (s : H.State) → mounts (H.mount source target [] 4096 [] s).1 path ≡ mounts s path
  bind_elsewhere source target other s = ground (
    arith,
    T.bind_ok source target path s,
    T.mount_err source target path 4096 s,
    text_beq_iff target path,
  )

  remount_elsewhere :
      (source target : Text)
      → target ≢ path
      → (s : H.State) → mounts (H.mount source target [] 4129 [] s).1 path ≡ mounts s path
  remount_elsewhere source target other s = ground (
    arith,
    T.remount_ok source target path s,
    T.mount_err source target path 4129 s,
    text_beq_iff target path,
  )

  copy_elsewhere :
      (handle : Text)
      → handle ≢ j
      → IsElement handle
      → (s : H.State)
      → is_there (H.remove_all (copy_path root handle) s).1 (copy_path root j)
        ≡ is_there s (copy_path root j)
  copy_elsewhere handle other eh s =
      F.remove_all_elsewhere (copy_path root handle) (copy_path root j) s
        (λ e.
          other (IsWithin-unique root handle j (copy_path root j) eh ej (inl (sym e)) (inl refl)))
        (λ b. other (IsWithin-unique root handle j (copy_path root j) eh ej (inr b) (inl refl)))

  pub IsProvided-Spares : Spares H root j IsProvided IsApart
  unfolding remove_copy
  IsProvided-Spares = record {
    mkdir_all = λ directory mode s (there, kept). (
      F.mkdir_all_removes_nothing directory (copy_path root j) mode s there,
      T.mkdir_all_keeps directory path mode s ∙ kept,
    );
    chmod_copy = λ handle mode eh s (there, kept). (
      F.chmod_removes_nothing (copy_path root handle) (copy_path root j) mode s there,
      T.chmod_keeps (copy_path root handle) path mode s ∙ kept,
    );
    write_hold = λ handle content other eh s (there, kept). (
      F.write_file_removes_nothing (hold_path root handle) content (copy_path root j) 0o600 s there,
      T.write_file_keeps (hold_path root handle) content path 0o600 s ∙ kept,
    );
    bind = λ source target ((other, above), away) s (there, kept). (
      F.mount_elsewhere source target (copy_path root j) 4096 s other above ∙ there,
      bind_elsewhere source target away.0 s ∙ kept,
    );
    remount = λ source target ((other, above), away) s (there, kept). (
      F.mount_elsewhere source target (copy_path root j) 4129 s other above ∙ there,
      remount_elsewhere source target away.0 s ∙ kept,
    );
    unmount = λ target ((other, above), away) s (there, kept). (
      F.unmount_elsewhere target (copy_path root j) s above ∙ there,
      T.unmount_elsewhere target path s away.0 away.1 ∙ kept,
    );
    remove = λ target ((other, above), away) s (there, kept). (
      F.remove_elsewhere target (copy_path root j) s other ∙ there,
      T.remove_keeps target path s ∙ kept,
    );
    remove_hold = λ handle other eh s (there, kept). (
      F.remove_elsewhere (hold_path root handle) (copy_path root j) s
            (λ same. (paths_apart root j handle ej eh).2 (sym same))
          ∙ there,
      T.remove_keeps (hold_path root handle) path s ∙ kept,
    );
    remove_copy = λ handle other eh s (there, kept). (
      copy_elsewhere handle other eh s ∙ there,
      T.remove_all_keeps (copy_path root handle) path s ∙ kept,
    );
  }
