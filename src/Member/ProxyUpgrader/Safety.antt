-- ===== src/Member/ProxyUpgrader/Safety.antt =====
-- The rolling update of the proxies (proxy_upgrader.go), and where it cannot go on.
use elasticell_operator.Base.{
  ℕ, zero, suc, ◌≡◌, ◌⊎◌, inl, inr, String, true, false, some, List, ℤ, pos, lookup, arith,
}
use elasticell_operator.Api.Objects.{Pod, StatefulSet, SetStatus}
use elasticell_operator.Api.Cluster.{CellCluster, is_upgrade}
use elasticell_operator.Names.{proxy_pod_name}
use elasticell_operator.Effects.{Result, ok, World, Env, pod_at}
use elasticell_operator.Member.Rollout.{
  Rollout, complete, lower, Rollout-suc, ordinals, set_partition, Never, with_draft, is_updated,
  is_outdated,
}
use elasticell_operator.Member.Config.{set_upgrade_partition, partition_of, template_equal}
use elasticell_operator.Member.ProxyUpgrader.{member_ready, proxy_loop, upgrade, set_proxy_phase}

module _ (env : Env) (cluster : CellCluster) (rev : String) (pods : List Pod) where
  abbrev pod : ℕ → Result Pod
  pod j = pod_at env cluster.namespace (proxy_pod_name cluster.name (pos j)) pods

  abbrev pub Ready : ℕ → Type 0
  Ready j =
      (is_updated rev (pod j) ≡ true)
      × (member_ready (lookup (proxy_pod_name cluster.name (pos j)) cluster.status.proxy.members)
          ≡ true)

  abbrev pub Stale : ℕ → Type 0
  Stale j = is_outdated rev (pod j) ≡ true

proxy_step :
    (env : Env) (cluster : CellCluster) (rev : String) (i : ℕ) (w w' : World)
    → proxy_loop env cluster rev (suc i) w ≡ (ok tt, w')
    → (Ready env cluster rev w.pods i × (proxy_loop env cluster rev i w ≡ (ok tt, w')))
      ⊎ (Stale env cluster rev w.pods i × (w' ≡ set_partition (pos i) w))
unfolding proxy_loop
proxy_step env cluster rev i w w' h = ground arith

proxy_loop-Rollout :
    (env : Env) (cluster : CellCluster) (rev : String) (n : ℕ) (w w' : World)
    → proxy_loop env cluster rev n w ≡ (ok tt, w')
    → (w' ≡ with_draft w w'.draft)
      × Rollout
          (Ready env cluster rev w.pods)
          (Stale env cluster rev w.pods)
          Never
          n
          w.draft
          w'.draft
unfolding proxy_loop
proxy_loop-Rollout env cluster rev zero w w' h =
    (ground arith, complete (ground arith) (λ j l. elim l [ ]))
proxy_loop-Rollout env cluster rev (suc i) w w' h = elim (proxy_step env cluster rev i w w' h) [
  | inl (r, rest) ↦
      let (same, roll) = proxy_loop-Rollout env cluster rev i w w' rest in
      (same, Rollout-suc r roll)
  | inr (s, e) ↦
      (ground arith, lower i (omega arith) (ground arith) s (λ j a b. absurd (omega arith)))
]

-- A proxy upgrade that returns nil while neither PD nor the stores are upgrading, with an
-- unchanged pod template: apart from the phase `Upgrade` it writes to the new StatefulSet only,
-- and follows the one-pod-at-a-time rule, as for PD.
pub proxy_upgrade-Rollout :
    (env : Env) (old : StatefulSet) (w w' : World) (s : SetStatus) (p : ℤ)
    → upgrade env old w ≡ (ok tt, w')
    → is_upgrade w.cc.status.pd.phase ≡ false
    → is_upgrade w.cc.status.store.phase ≡ false
    → w.cc.status.proxy.stateful_set ≡ some s
    → partition_of old ≡ some p
    → template_equal env w.draft.spec.template old.spec.template ≡ true
    → (w' ≡ with_draft (set_proxy_phase w) w'.draft)
      × Rollout
          (Ready env w.cc s.update_revision w.pods)
          (Stale env w.cc s.update_revision w.pods)
          Never
          (ordinals s.replicas)
          (set_upgrade_partition w.draft p)
          w'.draft
unfolding upgrade
proxy_upgrade-Rollout env old w w' s p h pd_idle store_idle st pt same =
    proxy_loop-Rollout env (set_proxy_phase w).cc s.update_revision (ordinals s.replicas)
      (set_partition p (set_proxy_phase w)) w' (ground arith)
