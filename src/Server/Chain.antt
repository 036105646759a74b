-- ===== src/Server/Chain.antt =====
-- server.go: a call through the two interceptors, the one that measures and the one that logs.
use per_node_csi_driver.Prelude.{
  ℕ, ◌+◌, Option, none, some, List, [], ◌∷◌, ◌++◌, ◌≡◌, arith, Text, if◌then◌else◌, nat_eq,
  text_beq_self,
}
use per_node_csi_driver.Prelude.Exec.{Result, ok, err, Exec}
use per_node_csi_driver.Status.{Status, Code}
use per_node_csi_driver.Host.{Host}
use per_node_csi_driver.Map.{lookup, lookup-insert}
use per_node_csi_driver.Metrics.{count_of, seen, increment, observe, record_call}
use per_node_csi_driver.Driver.{Driver, on_readings}
use per_node_csi_driver.Server.{operation_name, is_error, metrics_interceptor}

-- The line of a call: its method, and `status.Code` of its error, where none is `codes.OK`.
pub record LogLine : Type 0 where
  pub rpc : Text
  pub code : Option Code

-- The driver, and the lines that its calls wrote to the log.
pub record Serving (H : Host) : Type 0 where
  pub driver : Driver H
  pub log : List LogLine

abbrev pub code_of : {A : Type 0} → Result Status A → Option Code
code_of (ok a) = none
code_of (err s) = some s.code

module _ {H : Host} {A : Type 0} where
  -- `logCalls`
  unfoldable pub log_calls : Text → Exec (Serving H) Status A → Exec (Serving H) Status A
  log_calls full_method handler s =
      let (result, t) = handler s in
      (result, record t { log = t.log ++ record { rpc = full_method; code = code_of result } ∷ [] })

  -- A method of a service, which writes no line of its own here.
  abbrev pub handler_of : Exec (Driver H) Status A → Exec (Serving H) Status A
  handler_of handler s = let (result, d) = handler s.driver in (result, record s { driver = d })

  -- `ChainUnaryInterceptor`: the first interceptor is the outermost.
  unfoldable pub intercepted : Text → ℕ → Exec (Driver H) Status A → Exec (Serving H) Status A
  intercepted full_method duration handler =
      metrics_interceptor (λ f s. record s { driver = on_readings f s.driver }) full_method duration
        (log_calls full_method (handler_of handler))

  -- Every call returns what its handler returns, on the machine and with the holds that the handler
  -- left. It writes one line, with its method and the code of its error, adds its duration to those
  -- of its kind, and counts one error of the kind exactly if the line has a code.
  pub intercepted-accounts :
      (full_method : Text) (duration : ℕ) (handler : Exec (Driver H) Status A) (s : Serving H)
      → let (r, before) = handler s.driver in
        let (result, after) = intercepted full_method duration handler s in
        let kind = operation_name full_method in
        (result ≡ r)
        × (after.driver.os ≡ before.os)
        × (after.driver.holds ≡ before.holds)
        × (after.log ≡ s.log ++ record { rpc = full_method; code = code_of r } ∷ [])
        × (lookup kind after.driver.readings.reconcile_duration
            ≡ some (seen (lookup kind before.readings.reconcile_duration) ++ duration ∷ []))
        × (count_of (lookup kind after.driver.readings.reconcile_errors)
            ≡ count_of (lookup kind before.readings.reconcile_errors)
              + (if is_error r then 1 else 0))
  unfolding intercepted metrics_interceptor log_calls record_call increment observe
  intercepted-accounts full_method duration handler s =
      let (r, before) = handler s.driver in
      let kind = operation_name full_method in
      let errors = before.readings.reconcile_errors in
      let durations = before.readings.reconcile_duration in
      ground (
        arith,
        text_beq_self kind,
        lookup-insert kind kind (count_of (lookup kind errors) + 1) errors,
        lookup-insert kind kind (seen (lookup kind durations) ++ duration ∷ []) durations,
      )
