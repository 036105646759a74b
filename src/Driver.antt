-- ===== src/Driver.antt =====
-- node.go: the `node` struct. What never changes is in the settings, the rest in the state.
use per_node_csi_driver.Prelude.{Bool, List, Text}
use per_node_csi_driver.Prelude.Exec.{Result, Exec}
use per_node_csi_driver.Host.{Host, Hold}
use per_node_csi_driver.Map.{Map}
use per_node_csi_driver.Metrics.{Readings}
use per_node_csi_driver.Events
use per_node_csi_driver.Events.{Event, PodReference, EventType, Reason}

-- `nodeID`, the store's root, `mountinfo`, and whether `events.client` is not nil.
pub record Settings : Type 0 where
  pub node_id : Text
  pub root : Text
  pub mountinfo : Text
  pub has_client : Bool

pub record Driver (H : Host) : Type 0 where
  pub os : H.State
  pub holds : Map Hold
  pub readings : Readings
  pub posted : List Event

module _ {H : Host} where
  -- A call of the kernel, whose error is returned.
  abbrev pub on_host : {E A : Type 0} → Exec H.State E A → Exec (Driver H) E A
  on_host m d = let (r, s) = m d.os in (r, record d { os = s })

  -- A call of the kernel, whose error changes only the log.
  abbrev pub try_host : {E A : Type 0} → Exec H.State E A → Driver H → Driver H
  try_host m d = record d { os = (m d.os).1 }

  -- A change of the state that returns no error.
  abbrev pub does : {E : Type 0} → (Driver H → Driver H) → Exec (Driver H) E Unit
  does f d = (Result.ok tt, f d)

  abbrev pub on_readings : (Readings → Readings) → Driver H → Driver H
  on_readings f d = record d { readings = f d.readings }

  unfoldable pub post : Settings → PodReference → EventType → Reason → Text → Driver H → Driver H
  unfolding Events.post
  post cfg pod kind reason message d = record d {
    posted = Events.post cfg.has_client cfg.node_id (H.now d.os) pod kind reason message d.posted;
  }
