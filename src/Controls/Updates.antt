-- ===== src/Controls/Updates.antt =====
-- pkg/controller/{pod,pvc,stateful_set,service,cellcluster}_control.go: creating, updating and
-- deleting the objects of a cluster. A client is that of the cluster's namespace.
pub mod Bounds
pub mod Kept
pub mod Services
use Prim.Native.String.{◌++◌}
use elasticell_operator.Base.{String, Bool, true, false, Dict, List, [], ◌∷◌}
use elasticell_operator.Api.Objects.{Pod, Pvc, StatefulSet, Service, ServiceSpec}
use elasticell_operator.Api.Cluster.{CellCluster, ClusterStatus, KvStore}
use elasticell_operator.Effects.{Error, nil_pointer, Result, ok, err, Env}
use elasticell_operator.Controls.Retry.{Retry, default_retry, default_backoff}
use elasticell_operator.Controls.Client.{
  Request, update, Event, Desk, Client, updating, subject, event_of, send, record_event, attempt,
  record_update, update_with, create_with, delete_with,
}

module _ (c : Client Pod) (cluster : CellCluster) where
  abbrev pub pod_subject : Pod → String
  pod_subject pod = subject "Pod" pod.name cluster.name

  unfoldable pub update_pod : Pod → Desk Pod → Result Pod × Desk Pod
  update_pod pod d =
      update_with c default_retry pod.name
        (λ u. record u { labels = pod.labels; annotations = pod.annotations })
        (λ _. pod_subject pod) pod d

  -- The end of `UpdateMetaInfo`: only the labels are kept.
  unfoldable pub send_labels : Pod → Desk Pod → Result Pod × Desk Pod
  send_labels pod d =
      update_with c default_backoff pod.name (λ u. record u { labels = pod.labels })
        (λ _. pod_subject pod) pod d

  unfoldable pub delete_pod : Pod → Desk Pod → Result (Unit {0}) × Desk Pod
  delete_pod pod d = delete_with c (pod_subject pod) pod.name d

module _ (c : Client Pvc) (cluster : CellCluster) where
  abbrev pub pvc_subject : Pvc → String
  pvc_subject pvc = subject "PVC" pvc.name cluster.name

  -- Also the end of `UpdateMetaInfo`.
  unfoldable pub update_pvc : Pvc → Desk Pvc → Result Pvc × Desk Pvc
  update_pvc pvc d =
      update_with c default_backoff pvc.name
        (λ u. record u { labels = pvc.labels; annotations = pvc.annotations })
        (λ _. pvc_subject pvc) pvc d

  unfoldable pub delete_pvc : Pvc → Desk Pvc → Result (Unit {0}) × Desk Pvc
  delete_pvc pvc d = delete_with c (pvc_subject pvc) pvc.name d

module _ (c : Client StatefulSet) (cluster : CellCluster) where
  abbrev pub set_subject : StatefulSet → String
  set_subject set = subject "StatefulSet" set.name cluster.name

  unfoldable pub create_stateful_set :
      StatefulSet → Desk StatefulSet → Result (Unit {0}) × Desk StatefulSet
  create_stateful_set set d = create_with c (set_subject set) set d

  unfoldable pub update_stateful_set :
      StatefulSet → Desk StatefulSet → Result StatefulSet × Desk StatefulSet
  update_stateful_set set d =
      update_with c default_backoff set.name (λ u. record u { spec = set.spec }) set_subject set d

  unfoldable pub delete_stateful_set :
      StatefulSet → Desk StatefulSet → Result (Unit {0}) × Desk StatefulSet
  delete_stateful_set set d = delete_with c (set_subject set) set.name d

module _ (c : Client Service) (cluster : CellCluster) where
  abbrev pub service_subject : Service → String
  service_subject svc = subject "Service" svc.name cluster.name

  unfoldable pub create_service : Service → Desk Service → Result (Unit {0}) × Desk Service
  create_service svc d = create_with c (service_subject svc) svc d

  -- The closure uses the lister's object if the lister failed, when there is none: the copy of nil
  -- is nil, and writing its spec panics. An object that the lister has is not used.
  abbrev refresh_failed : Error → Result Service → Desk Service → Result Service × Desk Service
  refresh_failed e (ok updated) d = (err e, d)
  refresh_failed e (err x) d = (err nil_pointer, d)

  abbrev after_service_update :
      String → Result Service × Desk Service → Result Service × Desk Service
  after_service_update name (ok svc, d) = (ok svc, d)
  after_service_update name (err e, d) = refresh_failed e (c.get d.requests name) d

  unfoldable pub service_attempt : String → Desk Service → Result Service × Desk Service
  service_attempt name d = after_service_update name (send c (update d.current) d)

  -- A panic passes by the event.
  abbrev unless_panic : Result Service × Desk Service → Result Service × Desk Service
  unless_panic (err nil_pointer, d) = (err nil_pointer, d)
  unless_panic r = record_update c service_subject r

  unfoldable pub update_service : Service → Desk Service → Result Service × Desk Service
  update_service svc d =
      unless_panic (
        c.retry.on_conflict default_backoff (service_attempt svc.name) (record d { current = svc }))

  unfoldable pub delete_service : Service → Desk Service → Result (Unit {0}) × Desk Service
  delete_service svc d = delete_with c (service_subject svc) svc.name d

-- A status without the times of the stores' heartbeats.
abbrev pub sweep_heartbeat_time : Dict KvStore → Dict KvStore
sweep_heartbeat_time [] = []
sweep_heartbeat_time ((id, store) ∷ stores) =
    (id, record store { last_heartbeat_time = 0 }) ∷ sweep_heartbeat_time stores

abbrev pub swept : ClusterStatus → ClusterStatus
swept status = record status {
  store = record status.store {
    stores = sweep_heartbeat_time status.store.stores;
    tombstone_stores = sweep_heartbeat_time status.store.tombstone_stores;
  };
}

unfoldable pub deep_equal_except_heartbeat_time : Env → ClusterStatus → ClusterStatus → Bool
deep_equal_except_heartbeat_time env new old = env.eq_status (swept new) (swept old)

module _ (env : Env) (c : Client CellCluster) where
  abbrev pub cluster_subject : CellCluster → String
  cluster_subject cluster = " CellCluster " ++ cluster.name

  -- Nothing is recorded if only heartbeats differ.
  abbrev record_unless :
      Bool → Result CellCluster × Desk CellCluster → Result CellCluster × Desk CellCluster
  record_unless true r = r
  record_unless false r = record_update c cluster_subject r

  unfoldable pub update_cell_cluster :
      CellCluster
      → ClusterStatus
      → ClusterStatus
      → Desk CellCluster
      → Result CellCluster × Desk CellCluster
  update_cell_cluster cluster new old d =
      record_unless (deep_equal_except_heartbeat_time env new old) (
        c.retry.on_conflict default_retry
          (attempt c cluster.name (λ u. record u { status = cluster.status }))
          (record d { current = cluster }))
