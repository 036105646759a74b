-- ===== src/Status.antt =====
-- gRPC statuses: the errors that the driver's calls return.
use per_node_csi_driver.Prelude.{Text}

pub data Code : Type 0 where
  invalid_argument failed_precondition internal not_found unimplemented : Code

-- `status.Error(code, message)`.
pub record Status : Type 0 where
  pub code : Code
  pub message : Text
