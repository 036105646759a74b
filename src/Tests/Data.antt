-- ===== src/Tests/Data.antt =====
-- A node with one handle, `db`, and two pods.
use per_node_csi_driver.Prelude.{true, none, [], ◌∷◌, Text, codes, ◌==◌, text_eq, if◌then◌else◌}
use per_node_csi_driver.Host.{Hold}
use per_node_csi_driver.Host.Memory.{Machine, memory}
use per_node_csi_driver.Metrics.{new_metrics}
use per_node_csi_driver.Events.{pod_name_key, pod_namespace_key, pod_uid_key}
use per_node_csi_driver.Driver.{Driver, Settings}
use per_node_csi_driver.Node.{PublishRequest, UnpublishRequest}

abbrev pub cfg : Settings
cfg = record {
  node_id = codes "node-1";
  root = codes "/s";
  mountinfo = codes "/proc/self/mountinfo";
  has_client = true;
}

-- Nothing is mounted, and one copy is there.
abbrev pub machine : Machine
machine = record {
  mounts = λ path. [];
  is_there = λ path. path == codes "/s/copies/db";
  content = λ path. none;
  names = λ path. if path == codes "/s/copies" then codes "db" ∷ [] else [];
}

abbrev pub idle : Driver memory
idle = record { os = machine; holds = []; readings = new_metrics; posted = [] }

abbrev pub db : Text
db = codes "db"

abbrev pub target : Text
target = codes "/t"

-- The pod `a` asks for `db`.
abbrev pub request : PublishRequest
request = record {
  volume_id = db;
  target_path = target;
  read_only = true;
  volume_context =
      (pod_name_key, codes "pod-a")
      ∷ (pod_namespace_key, codes "ns")
      ∷ (pod_uid_key, codes "a")
      ∷ [];
}

abbrev pub hold_of_b : Hold
hold_of_b = record {
  pod_uid = codes "b";
  pod_name = codes "pod-b";
  pod_namespace = codes "ns";
  target = codes "/u";
}

-- The pod `b` holds `db`.
abbrev pub taken : Driver memory
taken = record idle { holds = (db, hold_of_b) ∷ [] }

abbrev pub release_b : UnpublishRequest
release_b = record { volume_id = db; target_path = codes "/u" }

abbrev pub release_a : UnpublishRequest
release_a = record { volume_id = db; target_path = target }
