-- ===== src/Tests/Scheduling.antt =====
-- Choosing nodes, and finding peers.
use Prim.Native.String.{◌++◌ as concat}
use elasticell_operator.Base.{
  decimal, eq_iff, arith, ◌≡◌, ◌≢◌, ◌⊎◌, refl, true, none, some, map, select, List, [], ◌∷◌, String,
  Dict,
}
use elasticell_operator.Api.Objects.{Pod, Node}
use elasticell_operator.Api.Cluster.{CellCluster}
use elasticell_operator.Effects.{ok, World, find, pods_with, pvcs_with, matches, request}
use elasticell_operator.Scheduler.Ha.{
  filter, filter_locked, spread, acquire_lock, take_over, set_current_pod_scheduling, find_claims,
  node_map, put_pods, min_node_names, get_node_from_names, is_scheduling,
}
use elasticell_operator.Scheduler.Ha.Spread.{filter_keeps_free, is_free, single_bound}
use elasticell_operator.Scheduler.Ha.Lock.Marks.{acquire_lock_marks, is_own, marked_name}
use elasticell_operator.Scheduler.Ha.Lock.{acquire_lock_excludes, Released}
use elasticell_operator.Discovery.{
  trim_suffix, Server, State, completed, rpc_entry, discover, get_proxy_config,
}
use elasticell_operator.Discovery.Peers.{proxy_config_lists_peers}
use elasticell_operator.Discovery.Registers.{Asks}
use elasticell_operator.Util.Texts.{split}
use elasticell_operator.Tests.Data.{env, world, cluster, pod_named}

abbrev node : String → Node
node name = record { name = name; labels = none }

abbrev nodes : List Node
nodes = node "node-a" ∷ node "node-b" ∷ node "node-c" ∷ []

-- The pod to place, beside one that runs on the first node.
abbrev placed : Pod
placed = record (pod_named "demo-store-3" "store" "new") { node_name = "" }

abbrev running : Pod
running = pod_named "demo-store-0" "store" "new"

abbrev scheduling : World
scheduling = record world { pods = running ∷ placed ∷ [] }

abbrev kept : List Node
kept = node "node-b" ∷ node "node-c" ∷ []

abbrev filtered : World
filtered = (filter env "demo" placed nodes scheduling).1

filter_keeps_free_example :
    (kept ≡ select (is_free (running ∷ placed ∷ [])) nodes)
    ⊎ ((single_bound env placed nodes scheduling.pvcs ≡ true) × (kept ≡ nodes))
unfolding filter filter_locked spread acquire_lock take_over set_current_pod_scheduling find_claims
    node_map put_pods min_node_names get_node_from_names pods_with pvcs_with matches request
filter_keeps_free_example =
    filter_keeps_free env "demo" placed nodes kept (running ∷ placed ∷ []) scheduling filtered refl
      refl

acquire_lock_excludes_example : Released "store-demo-store-3" (find is_scheduling world.pvcs)
unfolding acquire_lock take_over set_current_pod_scheduling find_claims pvcs_with matches request
acquire_lock_excludes_example = acquire_lock_excludes env placed world.pvcs world refl refl

time_text : ◌≢◌ {A = String} (env.format_time env.now) ""
unfolding decimal
time_text e = ground (arith, (eq_iff "100" "").1 e)

acquire_lock_marks_example :
    let calls = (acquire_lock env placed world).1.calls in
    ((calls ≡ []) × (is_own "store-demo-store-3" (find is_scheduling world.pvcs) ≡ true))
    ⊎ (marked_name calls ≡ some "store-demo-store-3")
unfolding acquire_lock take_over set_current_pod_scheduling find_claims pvcs_with matches request
acquire_lock_marks_example = acquire_lock_marks env placed world.pvcs world time_text refl refl

-- Two of the three peers are known, and the third one asks.
abbrev known : State
known = some (
    ("demo-pd-0", "demo-pd-0.demo-pd-peer.prod.svc")
    ∷ ("demo-pd-1", "demo-pd-1.demo-pd-peer.prod.svc")
    ∷ [])

abbrev server : Server
server = record {
  get_cc = λ ns name. ok cluster;
  update_cc = λ cc. none;
  pod_namespace = "prod";
  cluster_name = "demo";
  range = λ peers. peers;
  encode_proxy_cfg = λ addresses notify. ok notify;
}

abbrev last_url : String
last_url = "demo-pd-2.demo-pd-peer.prod.svc"

abbrev peers : Dict String
peers =
    ("demo-pd-0", "demo-pd-0.demo-pd-peer.prod.svc")
    ∷ ("demo-pd-1", "demo-pd-1.demo-pd-peer.prod.svc")
    ∷ ("demo-pd-2", "demo-pd-2.demo-pd-peer.prod.svc")
    ∷ []

abbrev stored : CellCluster
stored = completed server peers cluster

url_is_given : ◌≢◌ {A = String} last_url ""
url_is_given = λ e. ground (arith, (eq_iff last_url "").1 e)

abbrev asking : Asks server last_url known cluster
unfolding split trim_suffix
asking = record {
  pod_name = "demo-pd-2";
  service = "demo-pd-peer";
  last = "svc";
  not_empty_url = url_is_given;
  parts = refl;
  found = refl;
  no_url = refl;
}

-- Later the API server holds what discovery stored.
abbrev later : Server
later = record server { get_cc = λ ns name. ok stored }

proxy_config_lists_peers_example :
    get_proxy_config later "10.1.2.3"
    ≡ later.encode_proxy_cfg (map rpc_entry peers) (concat "10.1.2.3" ":9998")
unfolding discover split
proxy_config_lists_peers_example =
    proxy_config_lists_peers server later last_url "10.1.2.3" known (some peers)
      (ok stored.spec.pd_peer_url) stored ("demo-pd-0", "demo-pd-0.demo-pd-peer.prod.svc") _ refl
      refl (refl, (refl, (refl, tt))) refl
