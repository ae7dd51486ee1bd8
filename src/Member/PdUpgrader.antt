-- ===== src/Member/PdUpgrader.antt =====
-- pkg/manager/member/pd_upgrader.go
pub mod Safety
pub mod Force
pub mod Progress
use elasticell_operator.Base.{
  ℕ, zero, suc, ◌+◌, ◌/◌, String, Bool, true, false, Option, none, some, List, [], ◌∷◌, ℤ, pos,
  lookup, ◌==◌, half, suc_ℤ, leb_ℤ, not, if◌then◌else◌,
}
use elasticell_operator.Api.Objects.{Pod, StatefulSet, SetStatus, Template}
use elasticell_operator.Api.Cluster.{CellCluster, PdMember, PdStatus, upgrade_phase}
use elasticell_operator.Api.Status.{quorum}
use elasticell_operator.Label
use elasticell_operator.Label.{instance_label_key, fresh, with_instance, pd_label}
use elasticell_operator.Names.{pd_pod_name}
use elasticell_operator.Effects.{
  Error, requeue, failure, no_revision_label, pd_not_synced, upgraded_pod_not_ready, World, Env, M,
  pure, fail, lift, gets, deref, modify, ◌>>=◌, ◌>>◌, get_pod, list_pods, when,
}
use elasticell_operator.Member.Config.{
  controller_revision_hash_label_key, template_equal, set_upgrade_partition, image_pull_failed,
  partition_of, or_fail,
}
use elasticell_operator.Member.Rollout.{ordinals, revision, set_partition}

abbrev pub set_pd_phase : World → World
set_pd_phase w = record w {
  cc = record (w.cc) {
    status = record (w.cc.status) { pd = record (w.cc.status.pd) { phase = upgrade_phase } };
  };
}

abbrev pub member_ready : Option PdMember → Bool
member_ready none = false
member_ready (some m) = m.health

unfoldable pub force_upgrade : M (Unit {0})
force_upgrade = do modify set_pd_phase; modify (set_partition (pos 0))

unfoldable pub upgrade_pd_pod : ℕ → M (Unit {0})
upgrade_pd_pod ordinal = modify (set_partition (pos ordinal))

module _ (env : Env) where
  -- The loop of `gracefulUpgrade` over the ordinals below the count, the highest first.
  unfoldable pub graceful_loop : CellCluster → String → ℕ → M (Unit {0})
  unfolding upgrade_pd_pod
  graceful_loop cluster update_revision zero = pure tt
  graceful_loop cluster update_revision (suc i) = do
    pod ← get_pod env cluster.namespace (pd_pod_name cluster.name (pos i))
    hash ← lift (or_fail (revision pod) (requeue no_revision_label))
    elim (hash == update_revision) [
      | true ↦
          elim (member_ready
            (lookup (pd_pod_name cluster.name (pos i)) cluster.status.pd.members)) [
              | true ↦ graceful_loop cluster update_revision i
              | false ↦ fail (requeue upgraded_pod_not_ready)
            ]
      | false ↦ upgrade_pd_pod i
    ]

  unfoldable pub graceful_upgrade : StatefulSet → M (Unit {0})
  graceful_upgrade old = do
    synced ← gets (λ w. w.cc.status.pd.synced)
    if not synced then fail (failure pd_not_synced) else do
      modify set_pd_phase
      new ← gets (λ w. w.draft)
      if not (template_equal env new.spec.template old.spec.template) then pure tt else do
        partition ← deref (partition_of old)
        modify (set_partition partition)
        cluster ← gets (λ w. w.cc)
        status ← deref cluster.status.pd.stateful_set
        graceful_loop cluster status.update_revision (ordinals status.replicas)

  -- The loop of `needForceUpgrade`: how many pods of the current revision cannot pull their image.
  unfoldable pub count_pull_failures : Option SetStatus → List Pod → ℕ → M ℕ
  count_pull_failures status [] count = pure count
  count_pull_failures status (pod ∷ pods) count = do
    hash ← lift (or_fail (revision pod) (failure no_revision_label))
    current ← deref status
    count_pull_failures status pods (
        if hash == current.current_revision
        then if image_pull_failed pod then count + 1 else count
        else count)

  unfoldable pub need_force_upgrade : M Bool
  need_force_upgrade = do
    cluster ← gets (λ w. w.cc)
    pods ←
        list_pods env cluster.namespace
          (pd_label (with_instance (Label.get instance_label_key cluster.labels) fresh))
    count ← count_pull_failures cluster.status.pd.stateful_set pods 0
    status ← deref cluster.status.pd.stateful_set
    pure (leb_ℤ (quorum status.replicas) (pos count))

  unfoldable pub upgrade : StatefulSet → M (Unit {0})
  upgrade old = do force ← need_force_upgrade; if force then force_upgrade else graceful_upgrade old
