-- ===== src/Server.antt =====
-- server.go: how the driver comes up, and the interceptor that measures every call.
pub mod Names
pub mod Started
pub mod Chain
pub mod Serve
use per_node_csi_driver.Prelude.{
  ℕ, Bool, true, false, Option, none, some, List, [], ◌∷◌, ◌++◌, Text, codes,
}
use per_node_csi_driver.Prelude.{◌==◌, nat_eq, text_eq, if◌then◌else◌}
use per_node_csi_driver.Prelude.Exec.{Result, ok, err, Exec, pure, raise, handle, ◌>>=◌, ◌>>◌}
use per_node_csi_driver.Text.{slash, cut_prefix}
use per_node_csi_driver.Host.{Fault, Host}
use per_node_csi_driver.Metrics.{Readings, record_call}
use per_node_csi_driver.Mount.{enoent}
use per_node_csi_driver.Driver.{Driver, Settings, on_readings}
use per_node_csi_driver.Calls.{start}

-- What follows the last slash, if there is one.
unfoldable pub after_last : Text → Option Text
after_last [] = none
after_last (c ∷ s) = later (after_last s)
  where
    later : Option Text → Option Text
    later (some rest) = some rest
    later none = if c == slash then some s else none

abbrev pub or_whole : Text → Option Text → Text
or_whole s none = s
or_whole s (some rest) = rest

-- `operationName`
unfoldable pub operation_name : Text → Text
operation_name full_method = or_whole full_method (after_last full_method)

abbrev pub is_error : {E A : Type 0} → Result E A → Bool
is_error (ok a) = false
is_error (err e) = true

-- `metricsInterceptor`, for a call that took `duration`, where the state has the metrics.
unfoldable pub metrics_interceptor :
    {S E A : Type 0} → ((Readings → Readings) → S → S) → Text → ℕ → Exec S E A → Exec S E A
metrics_interceptor on_metrics full_method duration handler s =
    let (result, t) = handler s in
    (result, on_metrics (record_call (operation_name full_method) duration (is_error result)) t)

-- The package net, as `newServer` calls it: a listener on a network and an address, and its `Close`.
pub record Network (H : Host) : Type 0 where
  pub listen : Text → Text → Exec H.State Fault Unit
  pub close : Text → Exec H.State Fault Unit

-- The part of `config` that `newServer` reads itself.
pub record Addresses : Type 0 where
  pub endpoint : Text
  pub metrics : Text

-- `endpointScheme`
unfoldable pub endpoint_scheme : Text
endpoint_scheme = codes "unix://"

module _ (H : Host) (N : Network H) (cfg : Settings) where
  -- `listen` of metrics.go: an empty address serves none.
  unfoldable pub metrics_listen : Text → Exec H.State Fault Unit
  metrics_listen address = if address == [] then pure tt else N.listen (codes "tcp") address

  -- A socket file that a killed pod left is removed.
  unfoldable pub remove_socket : Text → Exec H.State Fault Unit
  remove_socket socket =
      handle (H.remove socket) pure
        (λ fault. if fault.errno == enoent then pure tt else raise fault)

  -- The first half of `newServer`: the store and the socket.
  unfoldable pub take_socket : Text → Exec H.State Fault Unit
  take_socket socket = do
    H.mkdir_all cfg.root 0o755
    remove_socket socket
    N.listen (codes "unix") socket

  -- The second half: the driver, and the listener of the metrics.
  unfoldable pub bring_up : Text → Text → Exec H.State Fault (Driver H)
  bring_up socket address s =
      let d = start H cfg s in let (result, t) = metrics_listen address d.os in finish d result t
    where
      finish : Driver H → Result Fault Unit → Exec H.State Fault (Driver H)
      finish d (ok tt) t = (ok (record d { os = t }), t)
      finish d (err fault) t = (err fault, (N.close socket t).1)

  unfoldable pub wrong_scheme : Text → Fault
  wrong_scheme endpoint = record {
    errno = 0;
    message =
        codes "--endpoint "
        ++ (H.quoted endpoint ++ (codes " does not begin with " ++ endpoint_scheme));
  }

  unfoldable pub new_server_on : Addresses → Option Text → Exec H.State Fault (Driver H)
  new_server_on a none = raise (wrong_scheme a.endpoint)
  new_server_on a (some socket) = do take_socket socket; bring_up socket a.metrics

  -- `newServer`. The sweep that it starts beside the calls is in Follow.antt.
  unfoldable pub new_server : Addresses → Exec H.State Fault (Driver H)
  new_server a = new_server_on a (cut_prefix a.endpoint endpoint_scheme)
