-- ===== src/Member/Builders/PdSet.antt =====
-- `getNewPDSetForCellCluster` of pd_member_manager.go.
use elasticell_operator.Base.{
  Bool, String, true, false, none, List, [], ◌∷◌, Dict, ℤ, add32, count_if,
}
use elasticell_operator.Api.Pods.{VolumeMount, Volume, Container, PodSpec, Quantity}
use elasticell_operator.Api.Objects.{StatefulSet}
use elasticell_operator.Api.Cluster.{CellCluster, PdFailureMember, pd}
use elasticell_operator.Api.Status.{member_type}
use elasticell_operator.Label.{fresh, with_instance, pd_label}
use elasticell_operator.Names.{pd_member_name, pd_peer_member_name}
use elasticell_operator.Util.Affinity.{affinity_for_node_selector}
use elasticell_operator.Util.Resources.{resource_requirement}
use elasticell_operator.Util.Helpers.{get_owner_ref}
use elasticell_operator.Effects.{Result, ok, Env}
use elasticell_operator.Member.Config.{and_then}
use elasticell_operator.Member.Builders.Parts.{
  annotations_mount, annotations_volume, instance_name, mount, config_volume, tcp_port, env_value,
  namespace_env, storage_size, storage_class, claim_template, rolling_update, empty_set_status,
}

abbrev is_deleted : String × PdFailureMember → Bool
is_deleted (name, member) = member.member_deleted

-- The replicas asked for, and one for each failed member that was deleted.
abbrev pub pd_replicas : CellCluster → ℤ
pd_replicas cluster =
    add32 cluster.spec.pd.replicas (count_if is_deleted cluster.status.pd.failure_members)

abbrev pub pd_labels : CellCluster → Dict String
pd_labels cluster = pd_label (with_instance (instance_name cluster) fresh)

abbrev volume_mounts : List VolumeMount
volume_mounts =
    annotations_mount
    ∷ mount "config" true "/etc/pd"
    ∷ mount "startup-script" true "/usr/local/bin/startup"
    ∷ mount "pd" false "/var/lib/pd"
    ∷ []

abbrev volumes : String → List Volume
volumes map =
    annotations_volume
    ∷ config_volume "config" map "config-file" "pd.toml"
    ∷ config_volume "startup-script" map "startup-script" "pd_start_script.sh"
    ∷ []

unfoldable pub pd_container : Env → CellCluster → Container
pd_container env cluster = record {
  name = member_type pd;
  image = cluster.spec.pd.container.image;
  command = "/bin/sh" ∷ "/usr/local/bin/startup/pd_start_script.sh" ∷ [];
  image_pull_policy = cluster.spec.pd.container.image_pull_policy;
  ports = tcp_port "peer" 2380 ∷ tcp_port "client" 2379 ∷ tcp_port "rpc" 20800 ∷ [];
  volume_mounts = volume_mounts;
  resources = resource_requirement env cluster.spec.pd.container none;
  env =
      namespace_env
      ∷ env_value "PEER_SERVICE_NAME" (pd_peer_member_name cluster.name)
      ∷ env_value "TZ" cluster.spec.timezone
      ∷ [];
}

unfoldable pub pd_pod_spec : Env → CellCluster → PodSpec
pd_pod_spec env cluster = record {
  scheduler_name = cluster.spec.scheduler_name;
  affinity =
      affinity_for_node_selector cluster.namespace cluster.spec.pd.node_selector_required
        (pd_labels cluster) cluster.spec.pd.node_selector;
  containers = pd_container env cluster ∷ [];
  restart_policy = "Always";
  tolerations = cluster.spec.pd.tolerations;
  volumes = volumes (pd_member_name cluster.name);
}

unfoldable pub pd_set : Env → CellCluster → Quantity → StatefulSet
pd_set env cluster q = record {
  name = pd_member_name cluster.name;
  namespace = cluster.namespace;
  labels = pd_labels cluster;
  annotations = none;
  owner_references = get_owner_ref cluster ∷ [];
  generation = 0;
  spec = record {
    replicas = pd_replicas cluster;
    selector = pd_labels cluster;
    template = record {
      labels = pd_labels cluster;
      annotations = none;
      spec = pd_pod_spec env cluster;
    };
    claims = claim_template (member_type pd) (storage_class env cluster.spec.pd) q ∷ [];
    service_name = pd_peer_member_name cluster.name;
    pod_management = "Parallel";
    update_strategy = rolling_update (pd_replicas cluster);
  };
  status = empty_set_status;
}

unfoldable pub get_new_pd_set : Env → CellCluster → Result StatefulSet
get_new_pd_set env cluster =
    and_then (storage_size env cluster.spec.pd.container.requests) λ q. ok (pd_set env cluster q)
