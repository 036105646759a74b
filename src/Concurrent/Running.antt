-- ===== src/Concurrent/Running.antt =====
-- A pod that runs, and what it needs, while other calls come and go: the calls of the kernel.
pub mod Needs
pub mod Recorded
pub mod Records
pub mod Publish
pub mod Calls
use per_node_csi_driver.Prelude.{ℕ, Bool, true, false, [], Text}
use per_node_csi_driver.Prelude.Exec.{Result, ok, err, Exec}
use per_node_csi_driver.Status.{Status}
use per_node_csi_driver.Host.{Fault, Host}
use per_node_csi_driver.Map.{lookup}
use per_node_csi_driver.Driver.{Driver, on_host}
use per_node_csi_driver.Node.Publish.Outcome.{HeldAt}
use per_node_csi_driver.Concurrent.{Thread, ret, andthen, call, rescue, ◌>>◌}
use per_node_csi_driver.Concurrent.Schedule.{Keeps, Keeps-andthen, Keeps-by_result}
use per_node_csi_driver.Concurrent.Running.Needs.{Spares}
use per_node_csi_driver.Concurrent.Operations.{
  internally, bind_read_write, bind_read_only, bind, unbind,
}

module _ {H : Host} {root j : Text} {Q : H.State → Type 0} {Apart : Text → Type 0}
    (S : Spares H root j Q Apart) (uid held_target : Text) where
  -- The pod holds the handle at its target, and what it needs is there.
  abbrev pub IsRunning : Driver H → Type 0
  IsRunning d = HeldAt uid held_target (lookup j d.holds) × Q d.os

  pub rescue-Keeps :
      {A E : Type 0} (m : Exec H.State Fault A) (g : Fault → Thread (Driver H) (Result E A))
      → ((s : H.State) → Q s → Q (m s).1)
      → ((fault : Fault) → Keeps IsRunning (g fault))
      → Keeps IsRunning (rescue (call (on_host m)) g)
  unfolding andthen
  rescue-Keeps m g kept h d (held, q) =
      ((held, kept d.os q), Keeps-by_result IsRunning (λ a. ret (ok a)) g (λ a. tt) h (m d.os).0)

  pub internally-Keeps :
      (m : Thread (Driver H) (Result Fault Unit))
      → Keeps IsRunning m
      → Keeps IsRunning (internally H m)
  internally-Keeps m h =
      Keeps-andthen IsRunning m _ h (Keeps-by_result IsRunning _ _ (λ a. tt) (λ fault. tt))

  pub internal_call-Keeps :
      (m : Exec H.State Fault Unit)
      → ((s : H.State) → Q s → Q (m s).1)
      → Keeps IsRunning (internally H (call (on_host m)))
  internal_call-Keeps m kept = rescue-Keeps m _ kept (λ fault. tt)

  pub chain-Keeps :
      {E : Type 0} (m n : Thread (Driver H) (Result E Unit))
      → Keeps IsRunning m
      → Keeps IsRunning n
      → Keeps IsRunning (m >> n)
  chain-Keeps m n hm hn =
      Keeps-andthen IsRunning m _ hm (Keeps-by_result IsRunning _ _ (λ a. hn) (λ e. tt))

  pub unbind-Keeps : (target : Text) → Apart target → Keeps IsRunning (unbind H target)
  unfolding unbind
  unbind-Keeps target apart =
      rescue-Keeps (H.unmount target 2) _ (S.unmount target apart) (λ fault. tt)

  bind_read_write-Keeps :
      (source target : Text) → Apart target → Keeps IsRunning (bind_read_write H source target)
  unfolding bind_read_write
  bind_read_write-Keeps source target apart =
      rescue-Keeps (H.mount source target [] 4096 []) _ (S.bind source target apart) (λ fault. tt)

  bind_read_only-Keeps :
      (source target : Text) → Apart target → Keeps IsRunning (bind_read_only H source target)
  unfolding bind_read_only
  bind_read_only-Keeps source target apart =
      chain-Keeps _ _
        (rescue-Keeps (H.mount source target [] 4096 []) _ (S.bind source target apart)
          (λ fault. tt))
        (rescue-Keeps (H.mount source target [] 4129 []) _ (S.remount source target apart)
          (λ fault d (held, q). ((held, S.unmount target apart d.os q), tt)))

  pub bind-Keeps :
      (source target : Text) (read_only : Bool)
      → Apart target
      → Keeps IsRunning (bind H source target read_only)
  unfolding bind
  bind-Keeps source target true apart = bind_read_only-Keeps source target apart
  bind-Keeps source target false apart = bind_read_write-Keeps source target apart
