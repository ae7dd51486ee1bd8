-- ===== src/Member/ProxyUpgrader/Stuck.antt =====
-- A proxy upgrade that stops after its first pod (proxy_upgrader.go). The loop asks the cluster's
-- status for the health of an updated proxy, and no code of the operator records proxies there.
use elasticell_operator.Base.{suc, ◌≡◌, [], true, false, some, ℤ, pos, arith, ℕ}
use elasticell_operator.Api.Objects.{StatefulSet}
use elasticell_operator.Api.Cluster.{is_upgrade}
use elasticell_operator.Names.{proxy_pod_name}
use elasticell_operator.Effects.{ok, err, requeue, upgraded_pod_not_ready, World, Env, pod_at}
use elasticell_operator.Member.Rollout.{is_updated}
use elasticell_operator.Member.Config.{partition_of, template_equal}
use elasticell_operator.Member.Revisions.{is_upgrading_by}
use elasticell_operator.Member.ProxyManager.{sync_proxy_status, upgrade_if_needed, update_proxy_set}
use elasticell_operator.Member.ProxyUpgrader.{upgrade, proxy_loop}

-- With no proxy member in the status, as it is in a new cluster, as soon as the pod of the highest
-- ordinal runs the update revision every sync of the proxies' StatefulSet that comes to upgrade it,
-- its template unchanged and its status read, fails with a requeue error. It asks for no update, so
-- the partition stays above, and it records no proxy, so the next sync fails as well.
pub proxy_upgrade_stuck :
    (env : Env) (old : StatefulSet) (w : World) (p : ℤ) (n : ℕ)
    → is_upgrade w.cc.status.pd.phase ≡ false
    → is_upgrade w.cc.status.store.phase ≡ false
    → w.cc.status.proxy.members ≡ []
    → (sync_proxy_status env old w).0 ≡ ok tt
    → is_upgrade (sync_proxy_status env old w).1.cc.status.proxy.phase ≡ true
    → old.status.replicas ≡ pos (suc n)
    → partition_of old ≡ some p
    → template_equal env w.draft.spec.template old.spec.template ≡ true
    → is_updated old.status.update_revision
        (pod_at env w.cc.namespace (proxy_pod_name w.cc.name (pos n)) w.pods)
      ≡ true
    → let (r, w') = update_proxy_set env old w in
      (r ≡ err (requeue upgraded_pod_not_ready))
      × (w'.calls ≡ w.calls)
      × (w'.sets ≡ w.sets)
      × (w'.cc.status.proxy.members ≡ [])
unfolding update_proxy_set upgrade_if_needed upgrade proxy_loop sync_proxy_status is_upgrading_by
proxy_upgrade_stuck env old w p n pd_idle store_idle none_known status_read rolling r pt same top =
    ground arith
