-- ===== src/Tests/Surviving.antt =====
-- The pod `b` runs with `db`, while the driver stops three times.
use per_node_csi_driver.Prelude.{
  ℕ, ◌≡◌, refl, ◌≢◌, arith, List, [], ◌∷◌, map, Text, All, codes, text_beq, text_ne, none, some,
  inl, ap,
}
use per_node_csi_driver.Prelude.{◌==◌, text_eq, if◌then◌else◌}
use per_node_csi_driver.Handle.Check.{IsElement}
use per_node_csi_driver.Prelude.Exec.{ok}
use per_node_csi_driver.Host.Laws.{IsBelow}
use per_node_csi_driver.Host.Memory.{encode}
use per_node_csi_driver.Map.{lookup}
use per_node_csi_driver.Metrics.{new_metrics}
use per_node_csi_driver.Path.{join_path}
use per_node_csi_driver.Store.{copy_path, hold_path, copies_directory, holds_directory, handles}
use per_node_csi_driver.Driver.{Driver}
use per_node_csi_driver.Node.{pod_in, hold_for}
use per_node_csi_driver.Host.Laws.{without_top}
use per_node_csi_driver.Handle.{check_handle}
use per_node_csi_driver.Events.{pod_of, pod_name_key, pod_uid_key, pod_namespace_key}
use per_node_csi_driver.Regex.{match_string}
use per_node_csi_driver.Store.{make_copy}
use per_node_csi_driver.Mount.{unbind, bind, bind_read_only, make_read_only}
use per_node_csi_driver.Holds.{write_hold, write_content, keep_hold, report_volumes}
use per_node_csi_driver.Node.Publish.{mount, publish_mount, publish_held, node_publish_volume}
use per_node_csi_driver.Node.Publish.Mounted.{copy_binding}
use per_node_csi_driver.Concurrent.Crashes.Published.{publish-IsRunning}
use per_node_csi_driver.Text.{split, split_first, join}
use per_node_csi_driver.Concurrent.Schedule.{interleave}
use per_node_csi_driver.Concurrent.Operations.{serve}
use per_node_csi_driver.Concurrent.Running.{IsRunning}
use per_node_csi_driver.Concurrent.Running.Recorded.{IsForeign, IsKept-Spares}
use per_node_csi_driver.Concurrent.Crashes.{Epoch, served, starting, restarted}
use per_node_csi_driver.Concurrent.Crashes.Survival.{IsHarmlessEpoch, restarted-IsRunning}
use per_node_csi_driver.Tests.Data.{cfg, machine, hold_of_b, request, db, target}
use per_node_csi_driver.Tests.Unpublishing.{db_element, target_ne_copy, target_apart}
use per_node_csi_driver.Tests.Interleaving.{shown, rivals, turns, a_ne_b, old_element}
use per_node_csi_driver.Tests.Crashing.{
  target_of_b, published, published-FileTable, published-MountTable, published_mounts, disk_file,
  listed_holds,
}

abbrev pub running : Driver published
running = record {
  os = record machine {
    mounts = λ path. if path == target_of_b then shown else [];
    content = λ path. if path == hold_path cfg.root db then some (encode hold_of_b) else none;
  };
  holds = (db, hold_of_b) ∷ [];
  readings = new_metrics;
  posted = [];
}

-- A process that serves, one that does not get through its start, and one that serves nothing.
abbrev epochs : List Epoch
epochs = served rivals turns ∷ starting 3 ∷ served [] [] ∷ []

hold_of_db : hold_path cfg.root db ≡ codes "/s/holds/db"
unfolding hold_path join_path holds_directory text_beq
hold_of_db = refl

hold_ne_mountinfo : hold_path cfg.root db ≢ cfg.mountinfo
unfolding hold_path join_path holds_directory text_beq
hold_ne_mountinfo = text_ne (codes "/s/holds/db") cfg.mountinfo refl

target_ne_hold : target ≢ hold_path cfg.root db
unfolding hold_path join_path holds_directory text_beq
target_ne_hold = text_ne target (codes "/s/holds/db") refl

second : Text → ℕ
second (a ∷ b ∷ rest) = b
second other = 0

target_not_above : ¬ IsBelow target (hold_path cfg.root db)
unfolding hold_path join_path holds_directory second text_beq
target_not_above (rest, e) = omega (arith, ap second e)

outside : ¬ IsBelow (join_path (cfg.root ∷ holds_directory ∷ [])) cfg.mountinfo
unfolding join_path holds_directory second text_beq
outside (rest, e) = omega (arith, ap second e)

pub listed : (s : published.State) → All IsElement (handles published cfg.root s)
unfolding handles
listed s = (db_element, (old_element, tt))

foreign :
    IsForeign published published-FileTable published-MountTable cfg db
      (codes "b")
      target_of_b
      shown
      db_element
      (disk_file (hold_path cfg.root db) hold_ne_mountinfo)
      target
unfolding text_beq
foreign = (
  ((target_ne_copy, target_apart), (text_ne target target_of_b refl, λ (rest, e). cc)),
  (target_ne_hold, target_not_above),
)

harmless :
    All
      (IsHarmlessEpoch published published-FileTable published-MountTable cfg db
        (codes "b")
        target_of_b
        shown
        db_element
        (disk_file (hold_path cfg.root db) hold_ne_mountinfo)
        published_mounts
        listed_holds)
      epochs
harmless =
    ((inl (foreign, λ e. a_ne_b), ((db_element, foreign, foreign.0.1.0), (tt, tt))), (tt, (tt, tt)))

recorded_b : published.read_file (hold_path cfg.root db) running.os ≡ ok (encode hold_of_b)
unfolding text_beq hold_path join_path holds_directory
recorded_b = refl

b_again : published.unmarshal (encode hold_of_b) ≡ ok hold_of_b
unfolding split split_first join
b_again = refl

runs :
    IsRunning
      (IsKept-Spares published published-FileTable published-MountTable cfg db
        (codes "b")
        target_of_b
        shown
        db_element
        (disk_file (hold_path cfg.root db) hold_ne_mountinfo))
      (codes "b")
      target_of_b
      running
unfolding published-FileTable published-MountTable lookup copy_path join_path copies_directory
    text_beq
runs = (
  (refl, refl),
  ((refl, refl), (encode hold_of_b, recorded_b, (hold_of_b, b_again, (refl, refl)))),
)

some_mount : shown ≢ []
some_mount e = cc

restarted-IsRunning_example :
    IsRunning
      (IsKept-Spares published published-FileTable published-MountTable cfg db
        (codes "b")
        target_of_b
        shown
        db_element
        (disk_file (hold_path cfg.root db) hold_ne_mountinfo))
      (codes "b")
      target_of_b
      (interleave turns
        (restarted published cfg epochs running)
        (map (serve published cfg) rivals)).0
restarted-IsRunning_example =
    restarted-IsRunning published published-FileTable published-MountTable cfg db (codes "b")
      target_of_b shown db_element (disk_file (hold_path cfg.root db) hold_ne_mountinfo)
      published_mounts listed_holds some_mount outside listed epochs rivals turns running harmless
      harmless.0 runs

-- The pod `a` publishes `db`, which nobody holds.
abbrev fresh : Driver published
fresh = record { os = machine; holds = []; readings = new_metrics; posted = [] }

published_ok : (node_publish_volume published cfg request fresh).0 ≡ ok tt
unfolding node_publish_volume publish_held publish_mount mount make_copy unbind bind bind_read_only
    make_read_only check_handle match_string lookup keep_hold report_volumes text_beq
published_ok = refl

written_ok :
    (write_hold published
      (hold_path cfg.root db)
      (hold_for request)
      (mount published cfg request fresh.os).1).0
    ≡ ok tt
unfolding write_hold write_content hold_path join_path holds_directory text_beq
written_ok = refl

a_again :
    (text : Text)
    → published.marshal (hold_for request) ≡ ok text
    → published.unmarshal text ≡ ok (hold_for request)
unfolding split split_first join hold_for pod_of lookup text_beq pod_name_key pod_uid_key
    pod_namespace_key
a_again text h = cc

free : lookup db fresh.holds ≡ none
unfolding lookup
free = refl

publish-IsRunning_example :
    IsRunning
      (IsKept-Spares published published-FileTable published-MountTable cfg db
        (pod_in request).uid
        target
        (copy_binding published published-MountTable cfg request
          ∷ without_top (published-MountTable.mounts fresh.os target))
        db_element
        (disk_file (hold_path cfg.root db) hold_ne_mountinfo))
      (pod_in request).uid
      target
      (node_publish_volume published cfg request fresh).1
publish-IsRunning_example =
    publish-IsRunning published published-FileTable published-MountTable cfg request db_element
      (disk_file (hold_path cfg.root db) hold_ne_mountinfo) fresh free published_ok
      (target_ne_copy, target_apart) written_ok a_again
