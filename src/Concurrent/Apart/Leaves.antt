-- ===== src/Concurrent/Apart/Leaves.antt =====
-- The publishes and unpublishes of other handles leave the hold of a handle alone.
use per_node_csi_driver.Prelude.{
  refl, ◌≢◌, Bool, true, false, not, Option, none, some, [], arith, Text, ◌==◌, text_eq,
  text_beq_iff,
}
use per_node_csi_driver.Prelude.Exec.{Result, ok, err, Exec}
use per_node_csi_driver.Status.{Status}
use per_node_csi_driver.Handle.{check_handle}
use per_node_csi_driver.Host.{Fault, Host, Hold}
use per_node_csi_driver.Events.{Reason}
use per_node_csi_driver.Map.{lookup, lookup-insert, lookup-erase}
use per_node_csi_driver.Path.{directory_of}
use per_node_csi_driver.Store.{copy_path, copy_mode, hold_path}
use per_node_csi_driver.Driver.{Driver, Settings, on_host, post}
use per_node_csi_driver.Node.{PublishRequest, UnpublishRequest, pod_in, hold_for}
use per_node_csi_driver.Concurrent.{Thread, ret, andthen, call, rescue, ◌>>◌}
use per_node_csi_driver.Concurrent.Operations.{
  internally, bind_read_write, bind_read_only, bind, unbind, report_volumes, write_hold, keep_hold,
  drop_hold, mount, refuse, publish_mounted, publish_mount, publish_held, node_publish_volume,
  clear_target, give_up, unpublish_held, node_unpublish_volume,
}
use per_node_csi_driver.Concurrent.Apart.{Leaves, Leaves-andthen, Leaves-by_result, Leaves-if}

-- The hold of the handle.
abbrev pub hold_of : {H : Host} → Text → Driver H → Option Hold
hold_of j d = lookup j d.holds

module _ (H : Host) (j : Text) where
  abbrev V : {A : Type 0} → Thread (Driver H) A → Type 0
  V m = Leaves (hold_of j) m

  rescue-Leaves :
      {A E : Type 0} (m : Exec H.State Fault A) (g : Fault → Thread (Driver H) (Result E A))
      → ((fault : Fault) → V (g fault))
      → V (rescue (call (on_host m)) g)
  unfolding andthen
  rescue-Leaves m g h =
      λ d. (refl, Leaves-by_result (hold_of j) (λ a. ret (ok a)) g (λ a. tt) h (m d.os).0)

  internally-Leaves : (m : Thread (Driver H) (Result Fault Unit)) → V m → V (internally H m)
  internally-Leaves m h =
      Leaves-andthen (hold_of j) m _ h (Leaves-by_result (hold_of j) _ _ (λ a. tt) (λ fault. tt))

  internal_call-Leaves : (m : Exec H.State Fault Unit) → V (internally H (call (on_host m)))
  internal_call-Leaves m = rescue-Leaves m _ (λ fault. tt)

  chain-Leaves : {E : Type 0} (m n : Thread (Driver H) (Result E Unit)) → V m → V n → V (m >> n)
  chain-Leaves m n hm hn =
      Leaves-andthen (hold_of j) m _ hm (Leaves-by_result (hold_of j) _ _ (λ a. hn) (λ e. tt))

  unbind-Leaves : (target : Text) → V (unbind H target)
  unfolding unbind
  unbind-Leaves target = rescue-Leaves (H.unmount target 2) _ (λ fault. tt)

  bind-Leaves : (source target : Text) (read_only : Bool) → V (bind H source target read_only)
  unfolding bind bind_read_write bind_read_only
  bind-Leaves source target false = rescue-Leaves (H.mount source target [] 4096 []) _ (λ fault. tt)
  bind-Leaves source target true =
      chain-Leaves _ _ (rescue-Leaves (H.mount source target [] 4096 []) _ (λ fault. tt))
        (rescue-Leaves (H.mount source target [] 4129 []) _ (λ fault d. (refl, tt)))

  pub report_volumes-Leaves :
      {A : Type 0} (rest : Thread (Driver H) A) → V rest → V (report_volumes H rest)
  unfolding report_volumes
  report_volumes-Leaves rest h = λ d. (refl, λ e. (refl, h))

module _ (H : Host) (cfg : Settings) (j : Text) where
  abbrev W : {A : Type 0} → Thread (Driver H) A → Type 0
  W m = Leaves (hold_of j) m

  pub mount-Leaves : (r : PublishRequest) → W (mount H cfg r)
  unfolding mount
  mount-Leaves r =
      let copy = copy_path cfg.root r.volume_id in
      chain-Leaves H j _ _ (internal_call-Leaves H j (H.mkdir_all copy copy_mode)) (
        chain-Leaves H j _ _ (internal_call-Leaves H j (H.chmod copy copy_mode)) (
          chain-Leaves H j _ _ (internal_call-Leaves H j (H.mkdir_all r.target_path 0o755)) (
            chain-Leaves H j _ _ (internally-Leaves H j _ (unbind-Leaves H j r.target_path))
              (internally-Leaves H j _ (bind-Leaves H j copy r.target_path r.read_only)))))

  pub write_hold-Leaves :
      (path : Text) (written : Result Fault Text) → W (write_hold H cfg path written)
  unfolding write_hold
  write_hold-Leaves path (err fault) = tt
  write_hold-Leaves path (ok content) = λ d. (
    refl,
    Leaves-by_result (hold_of j) _ _ (λ a e. (refl, tt)) (λ fault. tt)
        (H.mkdir_all (directory_of path) 0o755 d.os).0,
  )

  keep_hold-Leaves : (handle : Text) (taken : Hold) → handle ≢ j → W (keep_hold H cfg handle taken)
  unfolding keep_hold
  keep_hold-Leaves handle taken other = λ d. (
    ground (arith, lookup-insert handle j taken d.holds, text_beq_iff handle j),
    report_volumes-Leaves H j _ (write_hold-Leaves (hold_path cfg.root handle) (H.marshal taken)),
  )

  drop_hold-Leaves : (handle : Text) → handle ≢ j → W (drop_hold H cfg handle)
  unfolding drop_hold
  drop_hold-Leaves handle other = λ d. (
    ground (arith, lookup-erase handle j d.holds, text_beq_iff handle j),
    report_volumes-Leaves H j _ (λ e. (refl, tt)),
  )

  pub refuse-Leaves :
      (r : PublishRequest) (reason : Reason) (s : Status) → W (refuse H cfg r reason s)
  unfolding refuse post
  refuse-Leaves r reason s = λ d. (refl, tt)

  publish_mount-Leaves : (r : PublishRequest) → r.volume_id ≢ j → W (publish_mount H cfg r)
  unfolding publish_mount publish_mounted
  publish_mount-Leaves r other = Leaves-andthen (hold_of j) _ _ (mount-Leaves r) by_mount
    where
      by_mount : (result : Result Status Unit) → W (publish_mounted H cfg r result)
      by_mount (ok tt) =
          Leaves-andthen (hold_of j) _ _ (keep_hold-Leaves r.volume_id (hold_for r) other) (λ a. tt)
      by_mount (err s) = λ d. (refl, refuse-Leaves r Reason.mount_failed s)

  publish_held-Leaves :
      (r : PublishRequest) (standing : Option Hold)
      → r.volume_id ≢ j
      → W (publish_held H cfg r standing)
  unfolding publish_held
  publish_held-Leaves r none other = publish_mount-Leaves r other
  publish_held-Leaves r (some standing) other =
      Leaves-if (hold_of j) (not (standing.pod_uid == (pod_in r).uid)) _ _
        (refuse-Leaves r Reason.held _)
        (Leaves-if (hold_of j) (standing.target == r.target_path) _ _ tt
          (publish_mount-Leaves r other))

  pub node_publish_volume-Leaves :
      (r : PublishRequest) → r.volume_id ≢ j → W (node_publish_volume H cfg r)
  unfolding node_publish_volume
  node_publish_volume-Leaves r other =
      Leaves-by_result (hold_of j) _ _
        (λ a.
          Leaves-if (hold_of j) (r.target_path == []) _ _ tt
            (λ d. (refl, publish_held-Leaves r (lookup r.volume_id d.holds) other)))
        (refuse-Leaves r Reason.refused) (check_handle H.quoted r.volume_id)

  pub clear_target-Leaves : (target : Text) → W (clear_target H cfg target)
  unfolding clear_target
  clear_target-Leaves target =
      chain-Leaves H j _ _ (internally-Leaves H j _ (unbind-Leaves H j target))
        (rescue-Leaves H j (H.remove target) _ (λ fault. tt))

  give_up-Leaves : (r : UnpublishRequest) → r.volume_id ≢ j → W (give_up H cfg r)
  unfolding give_up
  give_up-Leaves r other =
      Leaves-andthen (hold_of j) _ _ (drop_hold-Leaves r.volume_id other) (λ a d. (refl, tt))

  unpublish_held-Leaves :
      (r : UnpublishRequest) (standing : Option Hold)
      → r.volume_id ≢ j
      → W (unpublish_held H cfg r standing)
  unfolding unpublish_held
  unpublish_held-Leaves r none other = give_up-Leaves r other
  unpublish_held-Leaves r (some standing) other =
      Leaves-if (hold_of j) (not (standing.target == r.target_path)) _ _ tt (give_up-Leaves r other)

  pub node_unpublish_volume-Leaves :
      (r : UnpublishRequest) → r.volume_id ≢ j → W (node_unpublish_volume H cfg r)
  unfolding node_unpublish_volume
  node_unpublish_volume-Leaves r other = Leaves-if (hold_of j) (r.volume_id == []) _ _ tt (
      Leaves-if (hold_of j) (r.target_path == []) _ _ tt (
        chain-Leaves H j _ _ (clear_target-Leaves r.target_path)
          (λ d. (refl, unpublish_held-Leaves r (lookup r.volume_id d.holds) other))))
