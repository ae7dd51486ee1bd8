-- ===== src/Tests/Data.antt =====
-- A cluster of three PD replicas, three stores and three proxies, and an environment that grants
-- every request.
use elasticell_operator.Base.{ℕ, String, true, false, none, some, List, [], ◌∷◌, pos, ◌==◌, decimal}
use elasticell_operator.Api.Pods.{PodSpec}
use elasticell_operator.Api.Objects.{Pod, Pvc, Pv, UpdateStrategy, SetSpec, SetStatus, StatefulSet}
use elasticell_operator.Api.Cluster.{
  ContainerSpec, MemberSpec, PdMember, KvStore, up, ClusterStatus, CellCluster, normal_phase,
}
use elasticell_operator.Effects.{not_found, ok, err, World, Env}

abbrev pub pod_spec : PodSpec
pod_spec = record {
  scheduler_name = "";
  affinity = none;
  containers = [];
  restart_policy = "";
  tolerations = [];
  volumes = [];
}

abbrev pub strategy : UpdateStrategy
strategy = record {
  strategy_type = "RollingUpdate";
  rolling_update = some (record { partition = some (pos 3) });
}

abbrev pub set_spec : SetSpec
set_spec = record {
  replicas = pos 3;
  selector = [];
  template = record {
    labels = [];
    annotations = some (("deepfabric.com/last-applied-configuration", "pod") ∷ []);
    spec = pod_spec;
  };
  claims = [];
  service_name = "";
  pod_management = "Parallel";
  update_strategy = strategy;
}

-- Three replicas, of which some run the revision "new".
abbrev pub set_status : SetStatus
set_status = record {
  observed_generation = some 1;
  replicas = pos 3;
  ready_replicas = pos 3;
  current_revision = "old";
  update_revision = "new";
}

abbrev pub set_named : String → StatefulSet
set_named name = record {
  name = name;
  namespace = "prod";
  labels = [];
  annotations = some (("deepfabric.com/last-applied-configuration", "spec") ∷ []);
  owner_references = [];
  generation = 1;
  spec = set_spec;
  status = set_status;
}

abbrev pub pod_named : String → String → String → Pod
pod_named name component revision = record {
  name = name;
  namespace = "prod";
  labels =
      ("controller-revision-hash", revision)
      ∷ ("app.kubernetes.io/name", "cell-cluster")
      ∷ ("app.kubernetes.io/managed-by", "cell-operator")
      ∷ ("app.kubernetes.io/instance", "demo")
      ∷ ("app.kubernetes.io/component", component)
      ∷ [];
  annotations = none;
  volumes = [];
  node_name = "node-a";
  phase = "Running";
  container_statuses = [];
}

abbrev pub pvc_named : String → Pvc
pvc_named name = record {
  name = name;
  namespace = "prod";
  labels =
      ("app.kubernetes.io/name", "cell-cluster")
      ∷ ("app.kubernetes.io/managed-by", "cell-operator")
      ∷ ("app.kubernetes.io/instance", "demo")
      ∷ ("app.kubernetes.io/component", "store")
      ∷ [];
  annotations = none;
  volume_name = "pv-1";
  phase = "Bound";
}

abbrev pub pv_deleted : Pv
pv_deleted = record {
  name = "pv-1";
  labels = [];
  annotations = [];
  claim_ref = none;
  reclaim_policy = "Delete";
}

abbrev pub container_spec : ContainerSpec
container_spec = record { image = "image"; image_pull_policy = ""; requests = none; limits = none }

abbrev pub member_spec : MemberSpec
member_spec = record {
  container = container_spec;
  replicas = pos 3;
  node_selector = none;
  node_selector_required = false;
  storage_class_name = "";
  tolerations = [];
}

abbrev pub pd_member : String → PdMember
pd_member name = record {
  name = name;
  id = "1";
  client_url = "";
  health = true;
  last_transition_time = 5;
}

abbrev pub kv_store : String → String → ℕ → KvStore
kv_store id pod_name leaders = record {
  id = id;
  pod_name = pod_name;
  ip = pod_name;
  leader_count = pos leaders;
  state = up;
  last_heartbeat_time = 7;
  last_transition_time = 5;
}

abbrev pub status : ClusterStatus
status = record {
  cluster_id = "9";
  pd = record {
    synced = true;
    phase = normal_phase;
    stateful_set = some set_status;
    members =
        ("demo-pd-0", pd_member "demo-pd-0")
        ∷ ("demo-pd-1", pd_member "demo-pd-1")
        ∷ ("demo-pd-2", pd_member "demo-pd-2")
        ∷ [];
    leader = pd_member "demo-pd-0";
    failure_members = [];
  };
  store = record {
    synced = true;
    phase = normal_phase;
    stateful_set = some set_status;
    stores =
        ("1", kv_store "1" "demo-store-0" 0)
        ∷ ("2", kv_store "2" "demo-store-1" 0)
        ∷ ("3", kv_store "3" "demo-store-2" 0)
        ∷ [];
    tombstone_stores = [];
    failure_stores = [];
  };
  proxy = record {
    phase = normal_phase;
    stateful_set = some set_status;
    members = [];
    failure_members = [];
  };
}

abbrev pub cluster : CellCluster
cluster = record {
  name = "demo";
  namespace = "prod";
  uid = "uid";
  labels = ("app.kubernetes.io/instance", "demo") ∷ [];
  spec = record {
    scheduler_name = "";
    pd = member_spec;
    proxy = member_spec;
    store = member_spec;
    services = [];
    pv_reclaim_policy = "Retain";
    timezone = "";
    pd_peer_url = "";
    pd_peer_rpc = "";
  };
  status = status;
}

-- The pod of the highest ordinal is updated.
abbrev pub pods : List Pod
pods =
    pod_named "demo-pd-0" "pd" "old"
    ∷ pod_named "demo-pd-1" "pd" "old"
    ∷ pod_named "demo-pd-2" "pd" "new"
    ∷ pod_named "demo-store-0" "store" "old"
    ∷ pod_named "demo-store-1" "store" "old"
    ∷ pod_named "demo-store-2" "store" "new"
    ∷ pod_named "demo-proxy-0" "proxy" "old"
    ∷ pod_named "demo-proxy-1" "proxy" "old"
    ∷ pod_named "demo-proxy-2" "proxy" "new"
    ∷ []

abbrev pub world : World
world = record {
  cc = cluster;
  draft = set_named "demo-pd";
  pods = pods;
  pvcs = pvc_named "store-demo-store-3" ∷ [];
  pvs = pv_deleted ∷ [];
  services = [];
  sets = set_named "demo-pd" ∷ set_named "demo-store" ∷ set_named "demo-proxy" ∷ [];
  calls = [];
}

abbrev pub env : Env
env = record {
  now = 100;
  reply = λ calls c. none;
  fault = λ k name. none;
  selector_fault = λ l. none;
  format_time = decimal;
  parse_time = λ s. some 1;
  parse_uint = λ s. some 3;
  parse_quantity = λ s. some (pos 1000);
  as_int64 = λ q. some (pos 1);
  encode_set_spec = λ s. ok "spec";
  decode_set_spec = λ s. ok set_spec;
  encode_pod_spec = λ s. ok "pod";
  decode_pod_spec = λ s. ok pod_spec;
  encode_service_spec = λ s. ok "service";
  decode_service_spec = λ s. err not_found;
  eq_replicas = λ a b. true;
  eq_template = λ a b. true;
  eq_strategy = λ a b. true;
  eq_pod_spec = λ a b. true;
  eq_service_spec = λ a b. a.cluster_ip == b.cluster_ip;
  eq_status = λ a b. false;
  get_cluster = ok "9";
  get_health = ok [];
  get_pd_leader = ok "demo-pd-0";
  get_members = ok (("demo-pd-0", 1) ∷ ("demo-pd-1", 2) ∷ ("demo-pd-2", 3) ∷ []);
  get_stores = ok [];
  get_tombstone_stores = ok [];
  get_config = ok 60;
  default_storage_class_name = "";
}
