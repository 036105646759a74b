-- ===== src/Concurrent/Crashes.antt =====
-- A driver that stops at any access and is started again on the machine as it was then.
pub mod Published
pub mod Restores
pub mod Survival
use per_node_csi_driver.Prelude.{ℕ, zero, suc, List, [], ◌∷◌, map}
use per_node_csi_driver.Host.{Host}
use per_node_csi_driver.Driver.{Driver, Settings}
use per_node_csi_driver.Calls.{Call, new_node, start}
use per_node_csi_driver.Concurrent.{Thread, ret, act}
use per_node_csi_driver.Concurrent.Schedule.{interleave}
use per_node_csi_driver.Concurrent.Operations.{serve}
use per_node_csi_driver.Concurrent.Starting.{resume}

-- The first accesses of the thread, and then no more.
unfoldable pub cut : {S A : Type 0} → ℕ → Thread S A → S → S
cut zero m s = s
cut (suc n) (ret a) s = s
cut (suc n) (act f next) s = cut n (next s) (f s)

-- How a process of the driver stops: while it serves calls, after the turns that they took, or in
-- its start, after a number of accesses.
pub data Epoch : Type 0 where
  served : List Call → List ℕ → Epoch
  starting : ℕ → Epoch

module _ (H : Host) (cfg : Settings) where
  -- The machine on which the process stopped. The memory of the process is gone.
  unfoldable pub stopped : Epoch → Driver H → H.State
  stopped (served calls turns) d = (interleave turns d (map (serve H cfg) calls)).0.os
  stopped (starting n) d = (cut n (resume H cfg) (new_node d.os)).os

  -- The driver after every process stopped and another one was started.
  unfoldable pub restarted : List Epoch → Driver H → Driver H
  restarted [] d = d
  restarted (epoch ∷ epochs) d = restarted epochs (start H cfg (stopped epoch d))
