-- ===== src/Concurrent/Operations/Alone/Publishing.antt =====
-- A publish that nothing comes between.
use per_node_csi_driver.Prelude.{◌≡◌, refl, ◌∙◌, ap, Bool, Option, none, some, arith, Text}
use per_node_csi_driver.Prelude.{text_eq}
use per_node_csi_driver.Prelude.Exec.{Result, ok, err, handle, resume_with, ◌>>◌}
use per_node_csi_driver.Status.{Status}
use per_node_csi_driver.Host.{Fault, Host, Hold}
use per_node_csi_driver.Map.{lookup}
use per_node_csi_driver.Mount
use per_node_csi_driver.Store.{make_copy}
use per_node_csi_driver.Driver.{Driver, Settings, on_host}
use per_node_csi_driver.Holds
use per_node_csi_driver.Node.{PublishRequest, hold_for}
use per_node_csi_driver.Node.Publish
use per_node_csi_driver.Metrics.{mount_failed}
use per_node_csi_driver.Events.{Reason}
use per_node_csi_driver.Driver.{does, on_readings}
use per_node_csi_driver.Holds.{holder}
use per_node_csi_driver.Concurrent.{alone, andthen, alone-andthen}
use per_node_csi_driver.Concurrent.Operations.{
  bind_read_write, bind_read_only, bind, unbind, report_volumes, write_hold, keep_hold, drop_hold,
  mount, refuse, publish_mounted, publish_mount, publish_held, node_publish_volume,
}

module _ (H : Host) where
  pub alone-unbind :
      (target : Text) (d : Driver H) → alone (unbind H target) d ≡ on_host (Mount.unbind H target) d
  unfolding alone andthen unbind Mount.unbind
  alone-unbind target d = ground arith

  pub alone-bind :
      (source target : Text) (read_only : Bool) (d : Driver H)
      → alone (bind H source target read_only) d ≡ on_host (Mount.bind H source target read_only) d
  unfolding alone andthen bind bind_read_write bind_read_only Mount.bind Mount.bind_read_write
      Mount.bind_read_only Mount.make_read_only
  alone-bind source target read_only d = ground arith

module _ (H : Host) (cfg : Settings) where
  pub alone-write_hold :
      (path : Text) (written : Result Fault Text) (d : Driver H)
      → alone (write_hold H cfg path written) d
        ≡ (tt, record d { os = (Holds.write_content H path written d.os).1 })
  unfolding alone write_hold Holds.write_content
  alone-write_hold path (err fault) d = refl
  alone-write_hold path (ok content) d = ground arith

  pub alone-keep_hold :
      (handle : Text) (taken : Hold) (d : Driver H)
      → alone (keep_hold H cfg handle taken) d ≡ (tt, Holds.keep_hold H cfg handle taken d)
  unfolding alone keep_hold report_volumes Holds.keep_hold Holds.report_volumes Holds.write_hold
  alone-keep_hold handle taken d = alone-write_hold _ _ _

  pub alone-drop_hold :
      (handle : Text) (d : Driver H)
      → alone (drop_hold H cfg handle) d ≡ (tt, Holds.drop_hold H cfg handle d)
  unfolding alone drop_hold report_volumes Holds.drop_hold Holds.report_volumes
  alone-drop_hold handle d = refl

  pub alone-mount :
      (r : PublishRequest) (d : Driver H)
      → alone (mount H cfg r) d ≡ on_host (Publish.mount H cfg r) d
  unfolding alone andthen mount unbind bind bind_read_write bind_read_only Publish.mount make_copy
      Mount.unbind Mount.bind Mount.bind_read_write Mount.bind_read_only Mount.make_read_only
  alone-mount r d = ground arith

  pub alone-publish_mounted :
      (r : PublishRequest) (result : Result Status Unit) (d : Driver H)
      → alone (publish_mounted H cfg r result) d
        ≡ resume_with result
            (λ _. does (Holds.keep_hold H cfg r.volume_id (hold_for r)))
            (λ s. do does (on_readings mount_failed); Publish.refuse H cfg r Reason.mount_failed s)
            d
  unfolding alone publish_mounted refuse Publish.refuse
  alone-publish_mounted r (ok tt) d =
      alone-andthen (keep_hold H cfg r.volume_id (hold_for r)) _ d
      ∙ ap (λ p. (ok tt, p.1)) (alone-keep_hold r.volume_id (hold_for r) d)
  alone-publish_mounted r (err s) d = refl

  pub alone-publish_mount :
      (r : PublishRequest) (d : Driver H)
      → alone (publish_mount H cfg r) d ≡ Publish.publish_mount H cfg r d
  unfolding publish_mount Publish.publish_mount
  alone-publish_mount r d =
      alone-andthen (mount H cfg r) (publish_mounted H cfg r) d
      ∙ ap (λ p. alone (publish_mounted H cfg r p.0) p.1) (alone-mount r d)
      ∙ alone-publish_mounted r _ _

  pub alone-publish_held :
      (r : PublishRequest) (standing : Option Hold) (d : Driver H)
      → alone (publish_held H cfg r standing) d ≡ Publish.publish_held H cfg r standing d
  unfolding alone publish_held refuse Publish.publish_held Publish.refuse
  alone-publish_held r none d = alone-publish_mount r d
  alone-publish_held r (some standing) d = ground (arith, alone-publish_mount r d)

  pub alone-node_publish_volume :
      (r : PublishRequest) (d : Driver H)
      → alone (node_publish_volume H cfg r) d ≡ Publish.node_publish_volume H cfg r d
  unfolding alone node_publish_volume refuse Publish.node_publish_volume Publish.refuse
  alone-node_publish_volume r d =
      ground (arith, alone-publish_held r (lookup r.volume_id d.holds) d)
