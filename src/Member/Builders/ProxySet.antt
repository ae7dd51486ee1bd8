-- ===== src/Member/Builders/ProxySet.antt =====
-- `getNewProxySetForCellCluster` of proxy_member_manager.go.
use elasticell_operator.Base.{String, true, none, List, [], ◌∷◌, Dict}
use elasticell_operator.Api.Pods.{VolumeMount, Volume, Container, PodSpec}
use elasticell_operator.Api.Objects.{StatefulSet}
use elasticell_operator.Api.Cluster.{CellCluster, proxy}
use elasticell_operator.Api.Status.{member_type, proxy_real_replicas}
use elasticell_operator.Label.{fresh, with_instance, proxy_label}
use elasticell_operator.Names.{proxy_member_name}
use elasticell_operator.Util.Affinity.{affinity_for_node_selector}
use elasticell_operator.Util.Resources.{resource_requirement}
use elasticell_operator.Util.Helpers.{get_owner_ref}
use elasticell_operator.Effects.{Env}
use elasticell_operator.Member.Builders.Parts.{
  annotations_mount, annotations_volume, instance_name, mount, config_volume, tcp_port, env_value,
  namespace_env, rolling_update, empty_set_status,
}

abbrev pub proxy_labels : CellCluster → Dict String
proxy_labels cluster = proxy_label (with_instance (instance_name cluster) fresh)

abbrev volume_mounts : List VolumeMount
volume_mounts = annotations_mount ∷ mount "startup-script" true "/usr/local/bin/startup" ∷ []

abbrev volumes : String → List Volume
volumes map =
    annotations_volume
    ∷ config_volume "startup-script" map "startup-script" "proxy_start_script.sh"
    ∷ []

unfoldable pub proxy_container : Env → CellCluster → Container
proxy_container env cluster = record {
  name = member_type proxy;
  image = cluster.spec.proxy.container.image;
  command = "/bin/sh" ∷ "/usr/local/bin/startup/proxy_start_script.sh" ∷ [];
  image_pull_policy = cluster.spec.proxy.container.image_pull_policy;
  ports = tcp_port "redis" 6379 ∷ [];
  volume_mounts = volume_mounts;
  resources = resource_requirement env cluster.spec.proxy.container none;
  env =
      namespace_env
      ∷ env_value "CLUSTER_NAME" cluster.name
      ∷ env_value "TZ" cluster.spec.timezone
      ∷ [];
}

unfoldable pub proxy_pod_spec : Env → CellCluster → PodSpec
proxy_pod_spec env cluster = record {
  scheduler_name = cluster.spec.scheduler_name;
  affinity =
      affinity_for_node_selector cluster.namespace cluster.spec.proxy.node_selector_required
        (proxy_labels cluster) cluster.spec.proxy.node_selector;
  containers = proxy_container env cluster ∷ [];
  restart_policy = "Always";
  tolerations = cluster.spec.proxy.tolerations;
  volumes = volumes (proxy_member_name cluster.name);
}

unfoldable pub get_new_proxy_set : Env → CellCluster → StatefulSet
get_new_proxy_set env cluster = record {
  name = proxy_member_name cluster.name;
  namespace = cluster.namespace;
  labels = proxy_labels cluster;
  annotations = none;
  owner_references = get_owner_ref cluster ∷ [];
  generation = 0;
  spec = record {
    replicas = proxy_real_replicas cluster;
    selector = proxy_labels cluster;
    template = record {
      labels = proxy_labels cluster;
      annotations = none;
      spec = proxy_pod_spec env cluster;
    };
    claims = [];
    service_name = "";
    pod_management = "Parallel";
    update_strategy = rolling_update (proxy_real_replicas cluster);
  };
  status = empty_set_status;
}
