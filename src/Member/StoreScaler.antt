-- ===== src/Member/StoreScaler.antt =====
-- pkg/manager/member/store_scaler.go
pub mod Out
pub mod In
use elasticell_operator.Base.{
  ℕ, String, Bool, true, false, ◌&&◌, Option, none, some, List, [], ◌∷◌, Dict, ℤ, pred32, ◌==◌,
  if◌then◌else◌,
}
use elasticell_operator.Api.Objects.{StatefulSet, Pod, Pvc}
use elasticell_operator.Api.Cluster.{CellCluster, KvStore, store, is_offline}
use elasticell_operator.Api.Status.{store_upgrading}
use elasticell_operator.Label
use elasticell_operator.Label.{store_id_label_key, ann_pvc_defer_deleting}
use elasticell_operator.Names.{ordinal_pvc_name, ordinal_pod_name}
use elasticell_operator.Effects.{
  requeue, failure, bad_number, store_still_in_cluster, store_not_in_cluster, delete_store,
  update_pvc, World, Env, M, pure, fail, lift, gets, modify, on_error, ◌>>=◌, ◌>>◌, get_pod,
  get_pvc, request,
}
use elasticell_operator.Member.Config.{annotate, or_fail}
use elasticell_operator.Member.Scaler.{
  reset_replicas, increase_replicas, decrease_replicas, delete_defer_deleting_pvc,
}
use elasticell_operator.Member.StoreUpgrader.{store_of_pod}

-- The first tombstone store of the pod that the pod's own label names.
abbrev pub tombstone_of_pod : String → String → Dict KvStore → Option KvStore
tombstone_of_pod pod_name label_id [] = none
tombstone_of_pod pod_name label_id ((id, s) ∷ rest) =
    if s.pod_name == pod_name && label_id == id
    then some s
    else tombstone_of_pod pod_name label_id rest

-- The claim that the lister found is the cached object.
abbrev pub edit_pvcs : Pvc → Pvc → List Pvc → List Pvc
edit_pvcs old new [] = []
edit_pvcs old new (p ∷ ps) =
    if p.name == old.name && p.namespace == old.namespace
    then new ∷ ps
    else p ∷ edit_pvcs old new ps

abbrev pub marked : Env → Pvc → Pvc
marked env pvc = record pvc {
  annotations = annotate ann_pvc_defer_deleting (env.format_time env.now) pvc.annotations;
}

module _ (env : Env) (old : StatefulSet) where
  unfoldable pub scale_out : M (Unit {0})
  scale_out = do
    cluster ← gets (λ w. w.cc)
    elim (store_upgrading cluster) [
      | true ↦ modify (reset_replicas old)
      | false ↦ do
        on_error (reset_replicas old)
            (delete_defer_deleting_pvc env old.name store old.spec.replicas)
        modify (increase_replicas old)
    ]

  -- The store of the last pod still serves: it is asked to leave, and the replicas stay.
  unfoldable pub leave_cluster : KvStore → M (Unit {0})
  leave_cluster s = do
    id ← lift (or_fail (env.parse_uint s.id) (failure bad_number))
    elim (is_offline s.state) [
      | true ↦ fail (requeue store_still_in_cluster)
      | false ↦ do request env (delete_store id); fail (requeue store_still_in_cluster)
    ]

  -- The store has left: its claim is marked for deletion, and the last pod may go.
  unfoldable pub remove_tombstone : CellCluster → ℤ → KvStore → M (Unit {0})
  remove_tombstone cluster ordinal s = do
    id ← lift (or_fail (env.parse_uint s.id) (failure bad_number))
    pvc ← get_pvc env cluster.namespace (ordinal_pvc_name store old.name ordinal)
    modify (λ w. record w { pvcs = edit_pvcs pvc (marked env pvc) w.pvcs })
    request env (update_pvc (marked env pvc))
    modify (decrease_replicas old)

  unfoldable pub scale_in_steps : CellCluster → ℤ → String → M (Unit {0})
  scale_in_steps cluster ordinal pod_name = do
    pod ← get_pod env cluster.namespace pod_name
    elim (store_of_pod pod_name cluster.status.store.stores) [
      | some s ↦ leave_cluster s
      | none ↦
          elim (tombstone_of_pod pod_name (Label.get store_id_label_key pod.labels)
            cluster.status.store.tombstone_stores) [
              | some s ↦ remove_tombstone cluster ordinal s
              | none ↦ fail (failure store_not_in_cluster)
            ]
    ]

  -- Every error path of the source resets the replicas first.
  unfoldable pub scale_in : M (Unit {0})
  scale_in = do
    cluster ← gets (λ w. w.cc)
    let ordinal = pred32 old.spec.replicas
    elim (store_upgrading cluster) [
      | true ↦ modify (reset_replicas old)
      | false ↦
          on_error (reset_replicas old)
            (scale_in_steps cluster ordinal (ordinal_pod_name store cluster.name ordinal))
    ]
