-- ===== src/Effects/Types.antt =====
-- Errors, requests, the state of a sync, and what the operator asks of others.
use elasticell_operator.Base.{ℕ, String, Bool, Option, List, Dict, ℤ}
use elasticell_operator.Api.Pods.{PodSpec, Quantity}
use elasticell_operator.Api.Objects.{
  Pod, Pvc, Pv, Service, ServiceSpec, StatefulSet, SetSpec, Template, UpdateStrategy,
}
use elasticell_operator.Api.Cluster.{CellCluster, ClusterStatus}

-- The place that made an error of the operator's own.
pub data Reason : Type 0 where
  waiting_for_pd waiting_for_store pd_not_synced store_not_synced : Reason
  no_revision_label upgraded_pod_not_ready upgraded_pod_not_running evicting_leader : Reason
  store_status_missing store_still_in_cluster store_not_in_cluster : Reason
  no_applied_config bad_quantity bad_number bad_time pvc_name_empty : Reason
  nodes_empty no_node_fits no_current_pvc waiting_for_scheduling : Reason
  peer_url_empty peer_url_malformed wrong_namespace waiting_for_peers peer_rpc_empty : Reason
  labels_empty no_instance_label : Reason
  error_response error_code store_not_deleted labels_not_found reaction_not_found : Reason

-- `requeue` is a RequeueError, `failure` another error of the operator's own, `remote` an error
-- of the API server, of PD or of a decoder, and `nil_pointer` the panic on a nil pointer or on the
-- first element of an empty list.
pub data Error : Type 0 where
  not_found : Error
  requeue : Reason → Error
  failure : Reason → Error
  remote : ℕ → Error
  nil_pointer : Error

pub data Result (A : Type 0) : Type 0 where
  ok : A → Result A
  err : Error → Result A

-- The requests that change something outside.
pub data Call : Type 0 where
  create_service : Service → Call
  update_service : Service → Call
  create_set : StatefulSet → Call
  update_set : StatefulSet → Call
  update_pod : Pod → Call
  delete_pod : String → Call
  update_pvc : Pvc → Call
  delete_pvc : String → Call
  patch_pv : String → String → Call
  update_pod_meta : Pod → Call
  update_pvc_meta : Pvc → Pod → Call
  update_pv_meta : Pv → Call
  delete_store : ℕ → Call
  begin_evict_leader : ℕ → Call
  end_evict_leader : ℕ → Call
  update_cluster : CellCluster → ClusterStatus → ClusterStatus → Call

-- The kinds of object that a lister serves.
pub data Kind : Type 0 where
  pod_kind pvc_kind pv_kind service_kind set_kind node_kind : Kind

-- pdapi.MemberHealth, and pdapi.StoreInfo with its Meta and Status.
pub record MemberHealth : Type 0 where
  pub name : String
  pub member_id : ℕ
  pub client_urls : List String
  pub health : Bool

pub record StoreMeta : Type 0 where
  pub id : ℕ
  pub address : String
  pub state : ℕ
  pub labels : List (String × String)

pub record StoreInfoStatus : Type 0 where
  pub leader_count : ℕ
  pub last_heartbeat_ts : ℤ

pub record StoreInfo : Type 0 where
  pub meta : StoreMeta
  pub status : Option StoreInfoStatus

pub record World : Type 0 where
  pub cc : CellCluster
  pub draft : StatefulSet
  pub pods : List Pod
  pub pvcs : List Pvc
  pub pvs : List Pv
  pub services : List Service
  pub sets : List StatefulSet
  pub calls : List Call  -- newest first

-- What the code calls and does not implement. `reply` answers a request after those made before
-- (`none` is success); `fault` is an error of a lister other than a missing object.
pub record Env : Type 0 where
  pub now : ℕ
  pub reply : List Call → Call → Option Error
  pub fault : Kind → String → Option Error
  pub selector_fault : Dict String → Option Error
  pub format_time : ℕ → String
  pub parse_time : String → Option ℕ
  pub parse_uint : String → Option ℕ
  pub parse_quantity : String → Option Quantity
  pub as_int64 : Quantity → Option ℤ
  pub encode_set_spec : SetSpec → Result String
  pub decode_set_spec : String → Result SetSpec
  pub encode_pod_spec : PodSpec → Result String
  pub decode_pod_spec : String → Result PodSpec
  pub encode_service_spec : ServiceSpec → Result String
  pub decode_service_spec : String → Result ServiceSpec
  pub eq_replicas : ℤ → ℤ → Bool
  pub eq_template : Template → Template → Bool
  pub eq_strategy : UpdateStrategy → UpdateStrategy → Bool
  pub eq_pod_spec : PodSpec → PodSpec → Bool
  pub eq_service_spec : ServiceSpec → ServiceSpec → Bool
  pub eq_status : ClusterStatus → ClusterStatus → Bool
  pub get_cluster : Result String
  pub get_health : Result (List MemberHealth)
  pub get_pd_leader : Result String
  pub get_members : Result (List (String × ℕ))
  pub get_stores : Result (List StoreInfo)
  pub get_tombstone_stores : Result (List StoreInfo)
  pub get_config : Result ℕ
  pub default_storage_class_name : String
