-- ===== src/Member/StoreScaler/In.antt =====
-- Scaling the stores in (store_scaler.go).
use elasticell_operator.Base.{
  ◌≡◌, refl, ◌≢◌, ◌⊎◌, inl, inr, none, [], any, ◌==◌, Dict, true, false, ◌&&◌, not, Bool, String,
  List, ◌∷◌, is_some, pred32, arith,
}
use elasticell_operator.Api.Objects.{StatefulSet, Pvc, Pod}
use elasticell_operator.Api.Cluster.{CellCluster, KvStore, store}
use elasticell_operator.Api.Status.{store_upgrading}
use elasticell_operator.Label
use elasticell_operator.Label.{store_id_label_key}
use elasticell_operator.Names.{ordinal_pvc_name, ordinal_pod_name}
use elasticell_operator.Effects.{
  Result, ok, err, World, Env, Call, update_pvc, pvc_at, pod_at, request,
}
use elasticell_operator.Member.Config.{annotate}
use elasticell_operator.Member.Scaler.{set_replicas}
use elasticell_operator.Member.StoreUpgrader.{store_of_pod}
use elasticell_operator.Member.StoreScaler.{
  scale_in, scale_in_steps, leave_cluster, remove_tombstone, tombstone_of_pod,
}

abbrev pub runs : String → String × KvStore → Bool
runs pod_name (id, s) = s.pod_name == pod_name

abbrev pub runs_as : String → String → String × KvStore → Bool
runs_as pod_name label (id, s) = s.pod_name == pod_name && label == id

-- No serving store is reported for the pod, and a tombstone is, under the id that the pod is
-- labelled with.
abbrev pub HasLeft : CellCluster → String → Pod → Type 0
HasLeft cluster pod_name pod =
    let label = Label.get store_id_label_key pod.labels in
    (any (runs pod_name) cluster.status.store.stores ≡ false)
    × (any (runs_as pod_name label) cluster.status.store.tombstone_stores ≡ true)

-- The claim with the annotation that defers its deletion.
abbrev pub deferred : Env → Pvc → Pvc
deferred env pvc = record pvc {
  annotations =
      annotate "cell.deepfabric.com/pvc-defer-deleting" (env.format_time env.now) pvc.annotations;
}

store_of_pod-any :
    (pod_name : String) (stores : Dict KvStore)
    → is_some (store_of_pod pod_name stores) ≡ any (runs pod_name) stores
store_of_pod-any pod_name [] = refl
store_of_pod-any pod_name ((id, s) ∷ stores) = ground (arith, store_of_pod-any pod_name stores)

tombstone_of_pod-any :
    (pod_name label : String) (stores : Dict KvStore)
    → is_some (tombstone_of_pod pod_name label stores) ≡ any (runs_as pod_name label) stores
tombstone_of_pod-any pod_name label [] = refl
tombstone_of_pod-any pod_name label ((id, s) ∷ stores) =
    ground (arith, tombstone_of_pod-any pod_name label stores)

abbrev left : CellCluster → String → Result Pod → Bool
left cluster pod_name (err e) = false
left cluster pod_name (ok pod) =
    not (is_some (store_of_pod pod_name cluster.status.store.stores))
    && is_some (
        tombstone_of_pod pod_name (Label.get store_id_label_key pod.labels)
          cluster.status.store.tombstone_stores)

left-HasLeft :
    (cluster : CellCluster) (pod_name : String) (r : Result Pod)
    → left cluster pod_name r ≡ true
    → (pod : Pod) × (r ≡ ok pod) × HasLeft cluster pod_name pod
left-HasLeft cluster pod_name (err e) h = ground arith
left-HasLeft cluster pod_name (ok pod) h =
    let label = Label.get store_id_label_key pod.labels in
    (
      pod,
      refl,
      (
        ground (arith, store_of_pod-any pod_name cluster.status.store.stores),
        ground (arith, tombstone_of_pod-any pod_name label cluster.status.store.tombstone_stores),
      ),
    )

abbrev Marks : Env → World → List Call → Result Pvc → Type 0
Marks env w calls (err e) = ⊥
Marks env w calls (ok c) =
    (env.reply w.calls (update_pvc (deferred env c)) ≡ none)
    × (calls ≡ update_pvc (deferred env c) ∷ w.calls)

marked-claim :
    (env : Env) (w : World) (calls : List Call) (r : Result Pvc)
    → Marks env w calls r
    → (c : Pvc) × (r ≡ ok c)
      × (env.reply w.calls (update_pvc (deferred env c)) ≡ none)
      × (calls ≡ update_pvc (deferred env c) ∷ w.calls)
marked-claim env w calls (err e) h = absurd h
marked-claim env w calls (ok c) h = (c, refl, h.0, h.1)

scale_in_outcomes :
    (env : Env) (old : StatefulSet) (w : World)
    → let ordinal = pred32 old.spec.replicas in
      let pod_name = ordinal_pod_name store w.cc.name ordinal in
      let (r, w') = scale_in env old w in
      ((store_upgrading w.cc ≡ true) × (r ≡ ok tt) × (w' ≡ set_replicas old.spec.replicas w))
      ⊎ ((store_upgrading w.cc ≡ false)
          × (r ≡ ok tt)
          × (w'.draft ≡ (set_replicas ordinal w).draft)
          × (left w.cc pod_name (pod_at env w.cc.namespace pod_name w.pods) ≡ true)
          × Marks env w w'.calls
              (pvc_at env w.cc.namespace (ordinal_pvc_name store old.name ordinal) w.pvcs))
      ⊎ ((store_upgrading w.cc ≡ false)
          × (r ≢ ok tt)
          × (w'.draft ≡ (set_replicas old.spec.replicas w).draft))
unfolding scale_in scale_in_steps leave_cluster remove_tombstone request
scale_in_outcomes env old w = ground arith

-- The replicas of the new StatefulSet become those of the old one, or one fewer. They become one
-- fewer only while the stores are not upgrading, when the store of the last pod has left the
-- cluster as a tombstone, and after the update that marks the pod's claim for deferred deletion,
-- the only request, was granted. With any error the replicas are those of the old StatefulSet.
pub scale_in_cases :
    (env : Env) (old : StatefulSet) (w : World)
    → let ordinal = pred32 old.spec.replicas in
      let pod_name = ordinal_pod_name store w.cc.name ordinal in
      let (r, w') = scale_in env old w in
      ((store_upgrading w.cc ≡ true) × (r ≡ ok tt) × (w' ≡ set_replicas old.spec.replicas w))
      ⊎ ((store_upgrading w.cc ≡ false)
          × (r ≡ ok tt)
          × (w'.draft ≡ (set_replicas ordinal w).draft)
          × ((pod : Pod) × (pod_at env w.cc.namespace pod_name w.pods ≡ ok pod)
              × HasLeft w.cc pod_name pod)
          × ((c : Pvc) × (pvc_at env w.cc.namespace (ordinal_pvc_name store old.name ordinal) w.pvcs
                ≡ ok c)
              × (env.reply w.calls (update_pvc (deferred env c)) ≡ none)
              × (w'.calls ≡ update_pvc (deferred env c) ∷ w.calls)))
      ⊎ ((store_upgrading w.cc ≡ false)
          × (r ≢ ok tt)
          × (w'.draft ≡ (set_replicas old.spec.replicas w).draft))
scale_in_cases env old w =
    let ordinal = pred32 old.spec.replicas in
    let pod_name = ordinal_pod_name store w.cc.name ordinal in
    elim (scale_in_outcomes env old w) [
      | inl upgrading ↦ inl upgrading
      | inr (inr failed) ↦ inr (inr failed)
      | inr (inl (idle, r, draft, left, marks)) ↦ inr (
          inl (
            idle,
            r,
            draft,
            left-HasLeft w.cc pod_name (pod_at env w.cc.namespace pod_name w.pods) left,
            marked-claim env w (scale_in env old w).1.calls _ marks,
          ))
    ]
