-- ===== src/Member/Builders/StoreSet.antt =====
-- `getNewSetForCellCluster` of store_member_manager.go, with its labels and claims.
use elasticell_operator.Base.{String, true, false, none, List, [], ◌∷◌, Dict}
use elasticell_operator.Api.Pods.{VolumeMount, Volume, Container, PodSpec, Quantity}
use elasticell_operator.Api.Objects.{StatefulSet}
use elasticell_operator.Api.Cluster.{CellCluster, store}
use elasticell_operator.Api.Status.{member_type, store_real_replicas}
use elasticell_operator.Label.{fresh, with_instance, store_label}
use elasticell_operator.Names.{store_member_name, store_peer_name}
use elasticell_operator.Util.Affinity.{affinity_for_node_selector}
use elasticell_operator.Util.Resources.{resource_requirement}
use elasticell_operator.Util.Helpers.{get_owner_ref, store_capacity}
use elasticell_operator.Effects.{Result, ok, Env}
use elasticell_operator.Member.Config.{and_then}
use elasticell_operator.Member.Builders.Parts.{
  annotations_mount, annotations_volume, instance_name, mount, config_volume, tcp_port, env_value,
  namespace_env, storage_size, storage_class, claim_template, rolling_update, empty_set_status,
}

abbrev pub label_store : CellCluster → Dict String
label_store cluster = store_label (with_instance (instance_name cluster) fresh)

abbrev volume_mounts : List VolumeMount
volume_mounts =
    annotations_mount
    ∷ mount "store" false "/var/lib/store"
    ∷ mount "config" true "/etc/store"
    ∷ mount "startup-script" true "/usr/local/bin/startup"
    ∷ []

abbrev volumes : String → List Volume
volumes map =
    annotations_volume
    ∷ config_volume "config" map "config-file" "store.toml"
    ∷ config_volume "startup-script" map "startup-script" "store_start_script.sh"
    ∷ []

unfoldable pub store_container : Env → CellCluster → Container
store_container env cluster = record {
  name = member_type store;
  image = cluster.spec.store.container.image;
  command = "/bin/sh" ∷ "/usr/local/bin/startup/store_start_script.sh" ∷ [];
  image_pull_policy = cluster.spec.store.container.image_pull_policy;
  ports = tcp_port "store-server" 10800 ∷ tcp_port "redis-cli" 6370 ∷ [];
  volume_mounts = volume_mounts;
  resources = resource_requirement env cluster.spec.store.container none;
  env =
      namespace_env
      ∷ env_value "PEER_SERVICE_NAME" (store_peer_name cluster.name)
      ∷ env_value "CLUSTER_NAME" cluster.name
      ∷ env_value "CAPACITY" (store_capacity env cluster.spec.store.container.limits)
      ∷ env_value "TZ" cluster.spec.timezone
      ∷ [];
}

unfoldable pub store_pod_spec : Env → CellCluster → PodSpec
store_pod_spec env cluster = record {
  scheduler_name = cluster.spec.scheduler_name;
  affinity =
      affinity_for_node_selector cluster.namespace cluster.spec.store.node_selector_required
        (label_store cluster) cluster.spec.store.node_selector;
  containers = store_container env cluster ∷ [];
  restart_policy = "Always";
  tolerations = cluster.spec.store.tolerations;
  volumes = volumes (store_member_name cluster.name);
}

unfoldable pub store_set : Env → CellCluster → Quantity → StatefulSet
store_set env cluster q = record {
  name = store_member_name cluster.name;
  namespace = cluster.namespace;
  labels = label_store cluster;
  annotations = none;
  owner_references = get_owner_ref cluster ∷ [];
  generation = 0;
  spec = record {
    replicas = store_real_replicas cluster;
    selector = label_store cluster;
    template = record {
      labels = label_store cluster;
      annotations = none;
      spec = store_pod_spec env cluster;
    };
    claims = claim_template (member_type store) (storage_class env cluster.spec.store) q ∷ [];
    service_name = store_peer_name cluster.name;
    pod_management = "Parallel";
    update_strategy = rolling_update (store_real_replicas cluster);
  };
  status = empty_set_status;
}

unfoldable pub get_new_set : Env → CellCluster → Result StatefulSet
get_new_set env cluster =
    and_then (storage_size env cluster.spec.store.container.requests)
      λ q. ok (store_set env cluster q)
