-- ===== src/Tests/Upgrades.antt =====
-- The rolling updates of three pods of which the last is updated.
use elasticell_operator.Base.{
  String, List, count_if, some, ◌*◌, ◌<◌, ◌≤◌, ◌⊎◌, ◌≡◌, refl, true, pos, [], ◌∷◌,
}
use elasticell_operator.Api.Objects.{StatefulSet}
use elasticell_operator.Names.{pd_pod_name, store_pod_name, proxy_pod_name}
use elasticell_operator.Effects.{
  ok, pods_with, matches, pod_at, request, World, err, requeue, upgraded_pod_not_ready,
}
use elasticell_operator.Member.Revisions.{is_upgrading_by}
use elasticell_operator.Member.ProxyManager.{sync_proxy_status, update_proxy_set}
use elasticell_operator.Member.Config.{
  stateful_set_is_upgrading, image_pull_failed, set_upgrade_partition, template_equal,
}
use elasticell_operator.Member.Rollout.{set_partition, Rollout, Never, with_draft}
use elasticell_operator.Member.PdUpgrader.{graceful_upgrade, graceful_loop, set_pd_phase}
use elasticell_operator.Member.PdUpgrader.Safety as PdSafety
use elasticell_operator.Member.PdUpgrader.Safety.{graceful_upgrade-Rollout}
use elasticell_operator.Member.StoreUpgrader
use elasticell_operator.Member.StoreUpgrader.{
  store_loop, get_store_by_ordinal, upgrade_store_pod, end_evict, ready_to_upgrade,
}
use elasticell_operator.Member.StoreUpgrader.Safety as StoreSafety
use elasticell_operator.Member.StoreUpgrader.Safety.{store_upgrade-Rollout}
use elasticell_operator.Member.ProxyUpgrader
use elasticell_operator.Member.ProxyUpgrader.{proxy_loop, set_proxy_phase}
use elasticell_operator.Member.ProxyUpgrader.Safety as ProxySafety
use elasticell_operator.Member.ProxyUpgrader.Safety.{proxy_upgrade-Rollout}
use elasticell_operator.Member.ProxyUpgrader.Stuck.{proxy_upgrade_stuck}
use elasticell_operator.Api.Objects.{Pod}
use elasticell_operator.Member.PdUpgrader
use elasticell_operator.Member.PdUpgrader.Force.{upgrade_forced, is_stuck}
use elasticell_operator.Tests.Data.{
  pod_named, env, status, world, cluster, pods, set_named, set_status,
}

abbrev old_pd : StatefulSet
old_pd = set_named "demo-pd"

abbrev after_pd : World
after_pd = (graceful_upgrade env old_pd world).1

graceful_upgrade-Rollout_example :
    (after_pd ≡ with_draft (set_pd_phase world) after_pd.draft)
    × Rollout
        (PdSafety.Ready env cluster "new" pods)
        (PdSafety.Stale env cluster "new" pods)
        Never
        3
        (set_upgrade_partition old_pd (pos 3))
        after_pd.draft
unfolding graceful_upgrade graceful_loop template_equal pod_at pd_pod_name
graceful_upgrade-Rollout_example =
    graceful_upgrade-Rollout env old_pd world after_pd set_status (pos 3) refl refl refl refl

abbrev old_store : StatefulSet
old_store = set_named "demo-store"

abbrev store_world : World
store_world = record world { draft = old_store }

abbrev after_store : World
after_store = (StoreUpgrader.upgrade env old_store store_world).1

store_upgrade-Rollout_example :
    Rollout
      (StoreSafety.Ready env cluster "new" pods)
      (StoreSafety.Stale env cluster "new" pods after_store.pods)
      (StoreSafety.Waiting env cluster "new" pods)
      3
      (set_upgrade_partition old_store (pos 3))
      after_store.draft
unfolding StoreUpgrader.upgrade store_loop get_store_by_ordinal upgrade_store_pod end_evict
    ready_to_upgrade request template_equal pod_at store_pod_name
store_upgrade-Rollout_example =
    store_upgrade-Rollout env old_store store_world after_store set_status (pos 3) refl refl refl
      refl refl

abbrev old_proxy : StatefulSet
old_proxy = set_named "demo-proxy"

abbrev proxy_world : World
proxy_world = record world {
  draft = old_proxy;
  cc = record cluster {
    status = record status {
      proxy = record (status.proxy) {
        members =
            (
              "demo-proxy-2",
              record { name = "demo-proxy-2"; health = true; last_transition_time = 5 },
            )
            ∷ [];
      };
    };
  };
}

abbrev after_proxy : World
after_proxy = (ProxyUpgrader.upgrade env old_proxy proxy_world).1

proxy_upgrade-Rollout_example :
    (after_proxy ≡ with_draft (set_proxy_phase proxy_world) after_proxy.draft)
    × Rollout
        (ProxySafety.Ready env proxy_world.cc "new" pods)
        (ProxySafety.Stale env proxy_world.cc "new" pods)
        Never
        3
        (set_upgrade_partition old_proxy (pos 3))
        after_proxy.draft
unfolding ProxyUpgrader.upgrade proxy_loop template_equal pod_at proxy_pod_name
proxy_upgrade-Rollout_example =
    proxy_upgrade-Rollout env old_proxy proxy_world after_proxy set_status (pos 3) refl refl refl
      refl refl refl

-- Without proxies in the status the same upgrade stops.
proxy_upgrade_stuck_example :
    let (r, w') = update_proxy_set env old_proxy (record world { draft = old_proxy }) in
    (r ≡ err (requeue upgraded_pod_not_ready))
    × (w'.calls ≡ [])
    × (w'.sets ≡ world.sets)
    × (w'.cc.status.proxy.members ≡ [])
unfolding template_equal pod_at proxy_pod_name sync_proxy_status is_upgrading_by
    stateful_set_is_upgrading
proxy_upgrade_stuck_example =
    proxy_upgrade_stuck env old_proxy (record world { draft = old_proxy }) (pos 3) 2 refl refl refl
      refl refl refl refl refl refl

-- Two of the three pods of PD cannot pull their image.
abbrev broken : String → Pod
broken name = record (pod_named name "pd" "old") {
  container_statuses = record { waiting = some "ErrImagePull" } ∷ [];
}

abbrev broken_pods : List Pod
broken_pods = broken "demo-pd-0" ∷ broken "demo-pd-1" ∷ pod_named "demo-pd-2" "pd" "new" ∷ []

abbrev broken_world : World
broken_world = record world { pods = broken_pods }

upgrade_forced_example :
    let stuck = count_if (is_stuck "old") broken_pods in
    ((3 < 2 * stuck)
      × (PdUpgrader.upgrade env old_pd broken_world
          ≡ (ok tt, set_partition (pos 0) (set_pd_phase broken_world))))
    ⊎ ((2 * stuck ≤ 3)
        × (PdUpgrader.upgrade env old_pd broken_world ≡ graceful_upgrade env old_pd broken_world))
unfolding pods_with matches
upgrade_forced_example =
    upgrade_forced env old_pd broken_world broken_pods set_status 3 refl (refl, (refl, (refl, tt)))
      refl refl

-- Two of three are more than half.
two_are_stuck : count_if (is_stuck "old") broken_pods ≡ 2
unfolding image_pull_failed
two_are_stuck = refl
