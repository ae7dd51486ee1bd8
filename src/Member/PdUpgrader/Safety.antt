-- ===== src/Member/PdUpgrader/Safety.antt =====
-- The rolling update of PD goes one pod at a time (pd_upgrader.go).
use elasticell_operator.Base.{
  ℕ, zero, suc, ◌≡◌, ◌⊎◌, inl, inr, String, true, some, List, ℤ, pos, lookup, arith,
}
use elasticell_operator.Api.Objects.{Pod, StatefulSet, SetStatus}
use elasticell_operator.Api.Cluster.{CellCluster}
use elasticell_operator.Names.{pd_pod_name}
use elasticell_operator.Effects.{Result, ok, World, Env, pod_at}
use elasticell_operator.Member.Rollout.{
  Rollout, complete, lower, Rollout-suc, ordinals, set_partition, Never, with_draft, is_updated,
  is_outdated,
}
use elasticell_operator.Member.Config.{set_upgrade_partition, partition_of, template_equal}
use elasticell_operator.Member.PdUpgrader.{
  member_ready, graceful_loop, graceful_upgrade, set_pd_phase,
}

module _ (env : Env) (cluster : CellCluster) (rev : String) (pods : List Pod) where
  -- The pod of an ordinal, and whether it runs the new revision as a healthy member of PD, or
  -- exists and carries another revision.
  abbrev pod : ℕ → Result Pod
  pod j = pod_at env cluster.namespace (pd_pod_name cluster.name (pos j)) pods

  abbrev pub Ready : ℕ → Type 0
  Ready j =
      (is_updated rev (pod j) ≡ true)
      × (member_ready (lookup (pd_pod_name cluster.name (pos j)) cluster.status.pd.members) ≡ true)

  abbrev pub Stale : ℕ → Type 0
  Stale j = is_outdated rev (pod j) ≡ true

graceful_step :
    (env : Env) (cluster : CellCluster) (rev : String) (i : ℕ) (w w' : World)
    → graceful_loop env cluster rev (suc i) w ≡ (ok tt, w')
    → (Ready env cluster rev w.pods i × (graceful_loop env cluster rev i w ≡ (ok tt, w')))
      ⊎ (Stale env cluster rev w.pods i × (w' ≡ set_partition (pos i) w))
unfolding graceful_loop
graceful_step env cluster rev i w w' h = ground arith

graceful_loop-Rollout :
    (env : Env) (cluster : CellCluster) (rev : String) (n : ℕ) (w w' : World)
    → graceful_loop env cluster rev n w ≡ (ok tt, w')
    → (w' ≡ with_draft w w'.draft)
      × Rollout
          (Ready env cluster rev w.pods)
          (Stale env cluster rev w.pods)
          Never
          n
          w.draft
          w'.draft
unfolding graceful_loop
graceful_loop-Rollout env cluster rev zero w w' h =
    (ground arith, complete (ground arith) (λ j l. elim l [ ]))
graceful_loop-Rollout env cluster rev (suc i) w w' h =
    elim (graceful_step env cluster rev i w w' h) [
      | inl (r, rest) ↦
          let (same, roll) = graceful_loop-Rollout env cluster rev i w w' rest in
          (same, Rollout-suc r roll)
      | inr (s, e) ↦
          (ground arith, lower i (omega arith) (ground arith) s (λ j a b. absurd (omega arith)))
    ]

-- `gracefulUpgrade` that returns nil with an unchanged pod template, from a synced status: it
-- writes to the new StatefulSet only, apart from the phase `Upgrade` in the cluster's status. It
-- either keeps the old partition, when every pod of the StatefulSet is updated and a healthy
-- member, or moves the partition to one ordinal whose pod is outdated, when every pod above that
-- ordinal is updated and a healthy member.
pub graceful_upgrade-Rollout :
    (env : Env) (old : StatefulSet) (w w' : World) (s : SetStatus) (p : ℤ)
    → graceful_upgrade env old w ≡ (ok tt, w')
    → w.cc.status.pd.stateful_set ≡ some s
    → partition_of old ≡ some p
    → template_equal env w.draft.spec.template old.spec.template ≡ true
    → (w' ≡ with_draft (set_pd_phase w) w'.draft)
      × Rollout
          (Ready env w.cc s.update_revision w.pods)
          (Stale env w.cc s.update_revision w.pods)
          Never
          (ordinals s.replicas)
          (set_upgrade_partition w.draft p)
          w'.draft
unfolding graceful_upgrade
graceful_upgrade-Rollout env old w w' s p h st pt same =
    graceful_loop-Rollout env (set_pd_phase w).cc s.update_revision (ordinals s.replicas)
      (set_partition p (set_pd_phase w)) w' (ground arith)
