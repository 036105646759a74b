-- ===== src/Follow.antt =====
-- sweep.go: `follow`, the loop that waits for deletions and for the ticker, and the watch under it.
-- The loop makes its passes one access at a time, and so do the calls that the kubelet makes
-- meanwhile, as in Concurrent/Operations.antt.
pub mod Wakes
pub mod Restarts
pub mod Removal
pub mod Spares
use per_node_csi_driver.Prelude.{
  ℕ, Bool, not, true, false, List, [], ◌∷◌, ◌++◌, Text, codes, if◌then◌else◌, ◌≡◌,
}
use per_node_csi_driver.Prelude.Exec.{Result, ok, err}
use per_node_csi_driver.Host.{Fault, Host}
use per_node_csi_driver.Metrics.{Readings, watch_restarted}
use per_node_csi_driver.Driver.{Driver, Settings}
use per_node_csi_driver.Sweep.{Cached, drop_managed_fields, handles_of}
use per_node_csi_driver.Status.{Status}
use per_node_csi_driver.Calls
use per_node_csi_driver.Calls.{Call}
use per_node_csi_driver.Concurrent.{Thread, ret, act}
use per_node_csi_driver.Concurrent.Schedule.{advance}
use per_node_csi_driver.Concurrent.Operations.{serve, sweep}

-- `watchedKind`
unfoldable pub watched_kind : Text
watched_kind = codes "PersistentVolume"

-- What `WatchFuncWithContext` of `volumes` does with the answer to `Watch`: the flag `opened`, and
-- the metrics.
unfoldable pub open_watch : Result Fault Unit → Bool × Readings → Bool × Readings
open_watch (err fault) w = w
open_watch (ok tt) (opened, m) = (true, if opened then watch_restarted watched_kind m else m)

-- The watches that the reflector opens, one after the other.
unfoldable pub open_watches : List (Result Fault Unit) → Bool × Readings → Bool × Readings
open_watches [] w = w
open_watches (answer ∷ answers) w = open_watches answers (open_watch answer w)

-- `wake`: the slot of the channel is full afterwards, whether it was or not.
abbrev pub wake : Bool → Bool
wake pass = true

-- A goroutine that serves a call or makes a pass.
abbrev pub Goroutine : Host → Type 0
Goroutine H = Thread (Driver H) (Result Status Unit)

-- Where `follow` is: it waits for the first list, is at the `select` of its loop, is about to make a
-- pass, is inside one, or has returned.
pub data Phase (H : Host) : Type 0 where
  syncing waiting due ended : Phase H
  sweeping : Goroutine H → Phase H

-- The driver, the informer's store, the slot of the channel `deleted`, the loop, and the calls of
-- the kubelet that came so far.
pub record Following (H : Host) : Type 0 where
  pub driver : Driver H
  pub cached : List Cached
  pub deleted : Bool
  pub phase : Phase H
  pub calls : List (Goroutine H)

-- The start of `follow`: without a client it returns, and with one it waits for the first list.
unfoldable pub follow : {H : Host} → Bool → Driver H → Following H
follow has_client d = record {
  driver = d;
  cached = [];
  deleted = false;
  phase = if not has_client then ended else syncing;
  calls = [];
}

-- A call of the kubelet, and no pass.
abbrev pub IsKubelet : Call → Type 0
IsKubelet (Calls.publish r) = Unit
IsKubelet (Calls.unpublish r) = Unit
IsKubelet (Calls.stats r) = Unit
IsKubelet (Calls.pass objects) = ⊥

module _ (H : Host) (cfg : Settings) where
  -- One step of the loop, of the informer, or of a call of the kubelet.
  pub data Step : Following H → Following H → Type 0 where
    -- The informer's store gets an object, gets another version of one, or loses one. Only the last
    -- of these has a handler, which the informer calls next; the two are one step here.
    added :
        {f : Following H} (object : Cached)
        → Step f (record f { cached = drop_managed_fields object ∷ f.cached })
    updated :
        {f : Following H} (before after : List Cached) (old new : Cached)
        → f.cached ≡ before ++ old ∷ after
        → Step f (record f { cached = before ++ drop_managed_fields new ∷ after })
    deletes :
        {f : Following H} (before after : List Cached) (object : Cached)
        → f.cached ≡ before ++ object ∷ after
        → Step f (record f { cached = before ++ after; deleted = wake f.deleted })
    -- The list is there, and `follow` goes on with a pass.
    synced : {f : Following H} → f.phase ≡ syncing → Step f (record f { phase = due })
    -- The context is over before that.
    unsynced : {f : Following H} → f.phase ≡ syncing → Step f (record f { phase = ended })
    receive :
        {f : Following H}
        → f.phase ≡ waiting
        → f.deleted ≡ true
        → Step f (record f { phase = due; deleted = false })
    tick : {f : Following H} → f.phase ≡ waiting → Step f (record f { phase = due })
    -- A pass begins with what the store lists, makes its accesses to the driver one at a time, and
    -- is over.
    begins :
        {f : Following H}
        → f.phase ≡ due
        → Step f (record f { phase = sweeping (sweep H cfg (handles_of f.cached)) })
    sweeps :
        {f : Following H} {change : Driver H → Driver H} {next : Driver H → Goroutine H}
        → f.phase ≡ sweeping (act change next)
        → Step f (record f { phase = sweeping (next f.driver); driver = change f.driver })
    swept :
        {f : Following H} {result : Result Status Unit}
        → f.phase ≡ sweeping (ret result)
        → Step f (record f { phase = waiting })
    done : {f : Following H} → f.phase ≡ waiting → Step f (record f { phase = ended })
    -- The kubelet makes a call, and the call at the index makes its next access.
    arrives :
        {f : Following H} (c : Call)
        → IsKubelet c
        → Step f (record f { calls = serve H cfg c ∷ f.calls })
    turn :
        {f : Following H} (i : ℕ)
        → Step f (record f {
          driver = (advance i f.driver f.calls).0;
          calls = (advance i f.driver f.calls).1;
        })

  infixl 20 ◌andthen◌
  pub data Steps : Following H → Following H → Type 0 where
    start : {f : Following H} → Steps f f
    ◌andthen◌ : {f g h : Following H} → Steps f g → Step g h → Steps f h

  -- A step that the loop makes by itself: it needs no tick, and neither the informer nor the kubelet.
  abbrev pub IsOwn : {f g : Following H} → Step f g → Type 0
  IsOwn (added object) = ⊥
  IsOwn (updated before after old new e) = ⊥
  IsOwn (deletes before after object e) = ⊥
  IsOwn (synced p) = Unit
  IsOwn (unsynced p) = ⊥
  IsOwn (receive p q) = Unit
  IsOwn (tick p) = ⊥
  IsOwn (begins p) = Unit
  IsOwn (sweeps p) = Unit
  IsOwn (swept p) = Unit
  IsOwn (done p) = ⊥
  IsOwn (arrives c k) = ⊥
  IsOwn (turn i) = ⊥

  abbrev pub AreOwn : {f g : Following H} → Steps f g → Type 0
  AreOwn start = Unit
  AreOwn (steps andthen step) = AreOwn steps × IsOwn step
