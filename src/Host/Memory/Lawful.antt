-- ===== src/Host/Memory/Lawful.antt =====
-- The machine of Memory.antt meets the assumptions about mounts and files.
use per_node_csi_driver.Prelude.{ℕ, ◌≡◌, refl, ◌≢◌, ◌⊎◌, inl, inr, true, false}
use per_node_csi_driver.Prelude.{
  List, [], ◌∷◌, ◌++◌, arith, Text, ◌==◌, text_eq, text_beq_iff, text_beq_self,
}
use per_node_csi_driver.Prelude.{suc, Bool-cases, Option-cases, ◌∙◌}
use mathlib.Core.List.{append_assoc}
use per_node_csi_driver.Prelude.Exec.{ok}
use per_node_csi_driver.Text.Join.{cut_prefix_sound}
use per_node_csi_driver.Text.{slash, cut_prefix}
use per_node_csi_driver.Host.Laws.{Binding, MountTable, IsBelow, without_top, errno_of}
use per_node_csi_driver.Host.Files.{FileTable}
use per_node_csi_driver.Host.Memory.{
  Machine, memory, unmount_list, is_within, is_prefix, remove_all,
}

pub unmount_elsewhere :
    (points : List Binding) (target path : Text) (s : Machine)
    → target ≢ path
    → (unmount_list points target s).1.mounts path ≡ s.mounts path
unmount_elsewhere [] target path s h = refl
unmount_elsewhere (top ∷ others) target path s h = ground (arith, text_beq_iff target path)

pub unmount_ok :
    (points : List Binding) (target : Text) (s : Machine)
    → (unmount_list points target s).0 ≡ ok tt
    → (points ≢ []) × ((unmount_list points target s).1.mounts target ≡ without_top points)
unmount_ok [] target s h = cc
unmount_ok (top ∷ others) target s h = ground (arith, text_beq_self target)

pub unmount_err :
    (points : List Binding) (target path : Text) (s : Machine)
    → (unmount_list points target s).0 ≢ ok tt
    → (unmount_list points target s).1.mounts path ≡ s.mounts path
unmount_err [] target path s h = refl
unmount_err (top ∷ others) target path s h = absurd (h refl)

pub unmount_einval :
    (points : List Binding) (target : Text) (s : Machine) (n : ℕ)
    → errno_of (unmount_list points target s).0 ≡ suc n
    → points ≡ []
unmount_einval [] target s n h = refl
unmount_einval (top ∷ others) target s n h = absurd (omega arith)

pub unmount_present :
    (points : List Binding) (target : Text) (s : Machine)
    → points ≢ []
    → (unmount_list points target s).0 ≡ ok tt
unmount_present [] target s h = absurd (h refl)
unmount_present (top ∷ others) target s h = refl

pub unmount_keeps_files :
    (points : List Binding) (target path : Text) (s : Machine)
    → (unmount_list points target s).1.is_there path ≡ s.is_there path
unmount_keeps_files [] target path s = refl
unmount_keeps_files (top ∷ others) target path s = refl

unfoldable pub memory-MountTable : MountTable memory
unfolding remove_all
memory-MountTable = record {
  mounts = λ s. s.mounts;
  bind_ok = λ source target path s h. ground (arith, text_beq_iff target path);
  remount_ok = λ source target path s h. ground (arith, text_beq_iff target path);
  mount_err = λ source target path flags s h. ground arith;
  unmount_ok = λ target s h. unmount_ok (s.mounts target) target s h;
  unmount_elsewhere =
      λ target path s other apart. unmount_elsewhere (s.mounts target) target path s other;
  unmount_err = λ target path s h. unmount_err (s.mounts target) target path s h;
  unmount_einval = λ target s h. unmount_einval (s.mounts target) target s 21 h;
  unmount_enoent = λ target s h. unmount_einval (s.mounts target) target s 1 h;
  mkdir_all_keeps = λ directory path mode s. refl;
  chmod_keeps = λ name path mode s. refl;
  remove_keeps = λ name path s. ground arith;
  write_file_keeps = λ name content path mode s. refl;
  remove_all_keeps = λ name path s. refl;
}

IsBelow-of :
    (name path : Text) → is_prefix (cut_prefix path (name ++ slash ∷ [])) ≡ true → IsBelow name path
IsBelow-of name path h = elim (Option-cases (cut_prefix path (name ++ slash ∷ []))) [
  | inl e ↦ cc
  | inr (rest, e) ↦ (
    rest,
    cut_prefix_sound path (name ++ slash ∷ []) rest e ∙ append_assoc name (slash ∷ []) rest,
  )
]

within_of : (name path : Text) → is_within name path ≡ true → (name ≡ path) ⊎ IsBelow name path
unfolding is_within
within_of name path h = elim (Bool-cases (name == path)) [
  | inl e ↦ inl ((text_beq_iff name path).0 e)
  | inr e ↦ inr (IsBelow-of name path (ground arith))
]

pub within_self : (name : Text) → is_within name name ≡ true
unfolding is_within
within_self name = ground (arith, text_beq_self name)

pub outside : (name path : Text) → name ≢ path → ¬ IsBelow name path → is_within name path ≡ false
outside name path other apart = elim (Bool-cases (is_within name path)) [
  | inr e ↦ e
  | inl e ↦ absurd (elim (within_of name path e) [ inl p ↦ other p | inr b ↦ apart b ])
]

unfoldable pub memory-FileTable : FileTable memory
unfolding remove_all
memory-FileTable = record {
  is_there = λ s. s.is_there;
  remove_elsewhere = λ name path s h. ground (arith, text_beq_iff name path);
  remove_ok = λ name s h. ground (arith, text_beq_self name);
  remove_enoent = λ name s h. ground (arith, text_beq_self name);
  remove_keeps_content = λ name path s h. ground (arith, text_beq_iff name path);
  write_file_content = λ name content mode s h. ground (arith, text_beq_self name);
  unmount_elsewhere = λ target path s apart. unmount_keeps_files (s.mounts target) target path s;
  remove_all_elsewhere = λ name path s other apart. rw (outside name path other apart);
  remove_all_creates_nothing = λ name path s h. ground arith;
  remove_all_ok = λ name s h. rw (within_self name);
  mkdir_all_ok = λ directory mode s h. ground (arith, text_beq_self directory);
  mkdir_all_removes_nothing = λ directory path mode s h. ground arith;
  chmod_removes_nothing = λ name path mode s h. h;
  write_file_removes_nothing = λ name content path mode s h. ground arith;
  mount_elsewhere = λ source target path flags s other apart. ground arith;
  create_temp_new = λ directory pattern name s h. ground arith;
  create_temp_removes_nothing = λ directory pattern path s h. ground arith;
}
