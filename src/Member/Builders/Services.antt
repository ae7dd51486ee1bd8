-- ===== src/Member/Builders/Services.antt =====
-- The services of PD and of the stores (pd_member_manager.go, store_member_manager.go).
use elasticell_operator.Base.{String, none, List, [], ◌∷◌, Dict}
use elasticell_operator.Api.Objects.{Service, ServicePort}
use elasticell_operator.Api.Cluster.{CellCluster, pd}
use elasticell_operator.Api.Status.{member_type}
use elasticell_operator.Label.{fresh, with_instance, pd_label, store_label}
use elasticell_operator.Names.{pd_member_name, pd_peer_member_name, store_peer_name}
use elasticell_operator.Util.Helpers.{get_owner_ref, get_service_type}
use elasticell_operator.Member.Builders.Parts.{instance_name, service_port}

abbrev service : CellCluster → String → Dict String → String → String → List ServicePort → Service
service cluster name labels service_type cluster_ip ports = record {
  name = name;
  namespace = cluster.namespace;
  labels = labels;
  annotations = none;
  owner_references = get_owner_ref cluster ∷ [];
  spec = record {
    service_type = service_type;
    cluster_ip = cluster_ip;
    ports = ports;
    selector = labels;
  };
}

unfoldable pub get_new_pd_service : CellCluster → Service
get_new_pd_service cluster =
    service cluster (pd_member_name cluster.name)
      (pd_label (with_instance (instance_name cluster) fresh))
      (get_service_type cluster.spec.services (member_type pd)) "" (service_port "client" 2379 ∷ [])

unfoldable pub get_new_pd_headless_service : CellCluster → Service
get_new_pd_headless_service cluster =
    service cluster (pd_peer_member_name cluster.name)
      (pd_label (with_instance (instance_name cluster) fresh)) "" "None"
      (service_port "peer" 2380 ∷ service_port "rpc" 20800 ∷ [])

unfoldable pub get_new_store_headless_service : CellCluster → Service
get_new_store_headless_service cluster =
    service cluster (store_peer_name cluster.name)
      (store_label (with_instance (instance_name cluster) fresh)) "" "None"
      (service_port "cell-peer" 10800 ∷ service_port "cell-cli" 6370 ∷ [])
