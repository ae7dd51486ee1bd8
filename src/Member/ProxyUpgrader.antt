-- ===== src/Member/ProxyUpgrader.antt =====
-- pkg/manager/member/proxy_upgrader.go
pub mod Safety
pub mod Stuck
use elasticell_operator.Base.{
  ℕ, zero, suc, ◌||◌, String, Bool, true, false, Option, none, some, ℤ, pos, lookup, ◌==◌, not,
  if◌then◌else◌,
}
use elasticell_operator.Api.Pods.{PodSpec}
use elasticell_operator.Api.Objects.{Pod, StatefulSet}
use elasticell_operator.Api.Cluster.{CellCluster, ProxyMember, upgrade_phase, is_upgrade}
use elasticell_operator.Names.{proxy_pod_name}
use elasticell_operator.Effects.{
  requeue, no_revision_label, upgraded_pod_not_ready, World, Env, M, pure, fail, lift, gets, deref,
  modify, ◌>>=◌, ◌>>◌, get_pod,
}
use elasticell_operator.Member.Config.{
  template_equal, get_last_applied_config, partition_of, or_fail,
}
use elasticell_operator.Member.Rollout.{ordinals, revision, set_partition}

abbrev pub set_proxy_phase : World → World
set_proxy_phase w = record w {
  cc = record (w.cc) {
    status = record (w.cc.status) { proxy = record (w.cc.status.proxy) { phase = upgrade_phase } };
  };
}

-- `newSet.Spec.Template.Spec = *podSpec`: the pods keep what was applied last.
abbrev pub set_pod_spec : PodSpec → World → World
set_pod_spec spec w = record w {
  draft = record (w.draft) {
    spec = record (w.draft.spec) { template = record (w.draft.spec.template) { spec = spec } };
  };
}

abbrev pub member_ready : Option ProxyMember → Bool
member_ready none = false
member_ready (some m) = m.health

unfoldable pub upgrade_proxy_pod : ℕ → M (Unit {0})
upgrade_proxy_pod ordinal = modify (set_partition (pos ordinal))

module _ (env : Env) where
  -- The loop over the ordinals below the count, the highest first.
  unfoldable pub proxy_loop : CellCluster → String → ℕ → M (Unit {0})
  unfolding upgrade_proxy_pod
  proxy_loop cluster update_revision zero = pure tt
  proxy_loop cluster update_revision (suc i) = do
    pod ← get_pod env cluster.namespace (proxy_pod_name cluster.name (pos i))
    hash ← lift (or_fail (revision pod) (requeue no_revision_label))
    elim (hash == update_revision) [
      | true ↦
          elim (member_ready
            (lookup (proxy_pod_name cluster.name (pos i)) cluster.status.proxy.members)) [
              | true ↦ proxy_loop cluster update_revision i
              | false ↦ fail (requeue upgraded_pod_not_ready)
            ]
      | false ↦ upgrade_proxy_pod i
    ]

  -- While PD or the stores upgrade: the pods keep the configuration that was applied last.
  unfoldable pub keep_applied : StatefulSet → M (Unit {0})
  keep_applied old = do
    applied ← lift (get_last_applied_config env old)
    modify (set_pod_spec applied.1)

  unfoldable pub upgrade : StatefulSet → M (Unit {0})
  upgrade old = do
    before ← gets (λ w. w.cc.status)
    if is_upgrade before.pd.phase || is_upgrade before.store.phase then keep_applied old else do
      modify set_proxy_phase
      new ← gets (λ w. w.draft)
      if not (template_equal env new.spec.template old.spec.template) then pure tt else do
        partition ← deref (partition_of old)
        modify (set_partition partition)
        cluster ← gets (λ w. w.cc)
        status ← deref cluster.status.proxy.stateful_set
        proxy_loop cluster status.update_revision (ordinals status.replicas)
