-- ===== src/Identity.antt =====
-- identity.go: the CSI Identity service.
pub mod Ready
use per_node_csi_driver.Prelude.{Bool, true, false, Text, codes}
use per_node_csi_driver.Prelude.Exec.{Result, ok, err, Exec}
use per_node_csi_driver.Status.{Status}
use per_node_csi_driver.Host.{Fault, Host}
use per_node_csi_driver.Events.{driver_name}

-- `csi.GetPluginInfoResponse`
pub record PluginInfo : Type 0 where
  pub name : Text
  pub vendor_version : Text

-- `GetPluginInfo`, of the version the binary was built with.
unfoldable pub get_plugin_info : Text → PluginInfo
get_plugin_info version = record { name = driver_name; vendor_version = version }

-- `csi.ProbeResponse`
pub record ProbeResponse : Type 0 where
  pub ready : Bool

module _ (H : Host) where
  probed : Result Fault Text → H.State → Bool × H.State
  probed (err fault) s = (false, s)
  probed (ok name) s = (true, (H.remove name s).1)

  -- `storeIsWriteable`, which is what `Probe` reports.
  unfoldable pub store_is_writeable : Text → H.State → Bool × H.State
  unfolding probed
  store_is_writeable store s =
      let (result, t) = H.create_temp store (codes ".probe-") s in probed result t

  -- `Probe`
  unfoldable pub probe : Text → Exec H.State Status ProbeResponse
  probe store s =
      let (writeable, t) = store_is_writeable store s in (ok (record { ready = writeable }), t)
