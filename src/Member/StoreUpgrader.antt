-- ===== src/Member/StoreUpgrader.antt =====
-- pkg/manager/member/store_upgrader.go. Times are nanoseconds. A pod that the lister returned is
-- the cached object, so a write to its annotations changes the cache.
pub mod Pods
pub mod Safety
pub mod Eviction
pub mod Progress
pub mod Ends
use elasticell_operator.Base.{
  ℕ, zero, suc, ◌+◌, ◌&&◌, String, Bool, true, false, Option, none, some, List, [], ◌∷◌, Dict, ℤ,
  pos, insert, delete, ltb, eqb_ℤ, ◌==◌, not, is_some, if◌then◌else◌,
}
use elasticell_operator.Api.Pods.{PodSpec}
use elasticell_operator.Api.Objects.{Pod, StatefulSet}
use elasticell_operator.Api.Cluster.{CellCluster, KvStore, upgrade_phase, is_upgrade, is_up}
use elasticell_operator.Names.{store_pod_name}
use elasticell_operator.Effects.{
  requeue, failure, no_revision_label, upgraded_pod_not_ready, upgraded_pod_not_running, bad_number,
  evicting_leader, store_status_missing, store_not_synced, update_pod, begin_evict_leader,
  end_evict_leader, World, Env, M, pure, fail, lift, gets, deref, modify, ◌>>=◌, ◌>>◌, get_pod,
  request,
}
use elasticell_operator.Member.Config.{
  annotation, annotate, template_equal, get_last_applied_config, partition_of, or_fail,
}
use elasticell_operator.Member.Rollout.{ordinals, revision, set_partition}
use elasticell_operator.Member.ProxyUpgrader.{set_pod_spec, keep_applied}
use Pods.{edit_pod}

abbrev pub evict_leader_begin_time : String
evict_leader_begin_time = "evictLeaderBeginTime"

-- Three minutes.
abbrev pub evict_leader_timeout : ℕ
evict_leader_timeout = 180000000000

abbrev pub set_store_phase : World → World
set_store_phase w = record w {
  cc = record (w.cc) {
    status = record (w.cc.status) { store = record (w.cc.status.store) { phase = upgrade_phase } };
  };
}

-- The first store whose pod has the name.
abbrev pub store_of_pod : String → Dict KvStore → Option KvStore
store_of_pod pod_name [] = none
store_of_pod pod_name ((id, s) ∷ rest) =
    if s.pod_name == pod_name then some s else store_of_pod pod_name rest

unfoldable pub get_store_by_ordinal : CellCluster → ℕ → Option KvStore
get_store_by_ordinal cluster ordinal =
    store_of_pod (store_pod_name cluster.name (pos ordinal)) cluster.status.store.stores

abbrev pub is_evicting : Pod → Bool
is_evicting pod = is_some (annotation evict_leader_begin_time pod.annotations)

abbrev pub is_running : Pod → Bool
is_running pod = pod.phase == "Running"

abbrev pub timed_out : ℕ → Option ℕ → Bool
timed_out now none = false
timed_out now (some begin) = ltb (begin + evict_leader_timeout) now

abbrev pub without : String → Option (Dict String) → Option (Dict String)
without k none = none
without k (some m) = some (delete k m)

module _ (env : Env) where
  unfoldable pub ready_to_upgrade : Pod → KvStore → Bool
  ready_to_upgrade pod s =
      if eqb_ℤ s.leader_count (pos 0)
      then true
      else elim (annotation evict_leader_begin_time pod.annotations) [
        | none ↦ false
        | some text ↦ timed_out env.now (env.parse_time text)
      ]

  unfoldable pub begin_evict : CellCluster → ℕ → Pod → M (Unit {0})
  begin_evict cluster store_id pod = do
    request env (begin_evict_leader store_id)
    let mark = annotate evict_leader_begin_time (env.format_time env.now)
    modify (edit_pod pod mark)
    request env (update_pod (record pod { annotations = mark pod.annotations }))

  unfoldable pub end_evict : CellCluster → ℕ → M (Unit {0})
  end_evict cluster ordinal = do
    s ← deref (get_store_by_ordinal cluster ordinal)
    store_id ← lift (or_fail (env.parse_uint s.id) (failure bad_number))
    pod ← get_pod env cluster.namespace (store_pod_name cluster.name (pos ordinal))
    elim (is_evicting pod) [
      | true ↦ do
        let unmark = without evict_leader_begin_time
        modify (edit_pod pod unmark)
        request env (update_pod (record pod { annotations = unmark pod.annotations }))
        request env (end_evict_leader store_id)
      | false ↦ request env (end_evict_leader store_id)
    ]

  unfoldable pub upgrade_store_pod : CellCluster → ℕ → M (Unit {0})
  upgrade_store_pod cluster ordinal = do
    pod ← get_pod env cluster.namespace (store_pod_name cluster.name (pos ordinal))
    elim (store_of_pod (store_pod_name cluster.name (pos ordinal)) cluster.status.store.stores) [
      | none ↦ fail (requeue store_status_missing)
      | some s ↦ do
        store_id ← lift (or_fail (env.parse_uint s.id) (failure bad_number))
        elim (ready_to_upgrade pod s) [
          | true ↦ modify (set_partition (pos ordinal))
          | false ↦ elim (is_evicting pod) [
            | true ↦ fail (requeue evicting_leader)
            | false ↦ begin_evict cluster store_id pod
          ]
        ]
    ]

  -- The loop over the ordinals below the count, the highest first.
  unfoldable pub store_loop : CellCluster → String → ℕ → M (Unit {0})
  store_loop cluster update_revision zero = pure tt
  store_loop cluster update_revision (suc i) = elim (get_store_by_ordinal cluster i) [
    | none ↦ store_loop cluster update_revision i
    | some s ↦ do
      pod ← get_pod env cluster.namespace (store_pod_name cluster.name (pos i))
      hash ← lift (or_fail (revision pod) (requeue no_revision_label))
      elim (hash == update_revision) [
        | true ↦
            if not (is_running pod)
            then fail (requeue upgraded_pod_not_running)
            else if not (is_up s.state)
            then fail (requeue upgraded_pod_not_ready)
            else do end_evict cluster i; store_loop cluster update_revision i
        | false ↦ upgrade_store_pod cluster i
      ]
  ]

  unfoldable pub upgrade : StatefulSet → M (Unit {0})
  upgrade old = do
    before ← gets (λ w. w.cc.status)
    if is_upgrade before.pd.phase then keep_applied env old else do
      if not before.store.synced then fail (failure store_not_synced) else do
        modify set_store_phase
        new ← gets (λ w. w.draft)
        if not (template_equal env new.spec.template old.spec.template) then pure tt else do
          partition ← deref (partition_of old)
          modify (set_partition partition)
          cluster ← gets (λ w. w.cc)
          status ← deref cluster.status.store.stateful_set
          store_loop cluster status.update_revision (ordinals status.replicas)
