-- ===== src/Host.antt =====
-- What the driver calls and does not implement: the kernel, its file systems and its mount table,
-- and two formats of Go's libraries. The state of the machine is abstract.
pub mod Laws
pub mod Files
pub mod Disk
pub mod Memory
use per_node_csi_driver.Prelude.{ℕ, Bool, List, Text}
use per_node_csi_driver.Prelude.Exec.{Result, Exec}

-- An error value of Go: the error number that `errors.Is` and `os.IsNotExist` compare, and the text
-- of `Error()`.
pub record Fault : Type 0 where
  pub errno : ℕ
  pub message : Text

-- holds.go: `hold`, one pod's claim on one copy.
pub record Hold : Type 0 where
  pub pod_uid : Text
  pub pod_name : Text
  pub pod_namespace : Text
  pub target : Text

-- What `filepath.Walk` hands its callback of one entry. The size is the bit pattern of an int64.
pub record FileInfo : Type 0 where
  pub is_regular : Bool
  pub size : ℕ

-- `unix.Statfs_t`: the bit patterns of `Bsize`, `Bavail` and `Blocks`.
pub record Statfs : Type 0 where
  pub block_size : ℕ
  pub available : ℕ
  pub blocks : ℕ

pub record Host : Type 1 where
  pub State : Type 0
  -- os
  pub mkdir_all : Text → ℕ → Exec State Fault Unit
  pub chmod : Text → ℕ → Exec State Fault Unit
  pub remove : Text → Exec State Fault Unit
  pub remove_all : Text → Exec State Fault Unit
  pub write_file : Text → Text → ℕ → Exec State Fault Unit
  pub read_file : Text → State → Result Fault Text
  pub read_dir : Text → State → Result Fault (List Text)
  pub create_temp : Text → Text → Exec State Fault Text
  -- filepath.Walk: what the callback is given, in order
  pub walk : Text → State → List (Result Fault FileInfo)
  -- unix
  pub statfs : Text → State → Result Fault Statfs
  pub mount : Text → Text → Text → ℕ → Text → Exec State Fault Unit
  pub unmount : Text → ℕ → Exec State Fault Unit
  -- time.Now, as a count of seconds
  pub now : State → ℕ
  -- fmt's `%q`, and encoding/json for `hold`
  pub quoted : Text → Text
  pub marshal : Hold → Result Fault Text
  pub unmarshal : Text → Result Fault Hold
