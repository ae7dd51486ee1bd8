-- ===== src/Member/ProxyManager/Order.antt =====
-- PD, the stores and the proxies are upgraded in this order, one at a time.
use elasticell_operator.Base.{◌⊎◌, ◌≢◌, ℕ, zero, suc, ◌≡◌, refl, false, ◌&&◌, ◌||◌, String, arith}
use elasticell_operator.Api.Objects.{StatefulSet}
use elasticell_operator.Api.Cluster.{CellCluster, is_upgrade}
use elasticell_operator.Effects.{World, Env, ok, request}
use elasticell_operator.Member.Revisions.{is_upgrading_by}
use elasticell_operator.Member.Update.{update_if_changed, update_stateful_set}
use elasticell_operator.Member.ProxyUpgrader
use elasticell_operator.Member.ProxyUpgrader.{proxy_loop, keep_applied, upgrade_proxy_pod}
use elasticell_operator.Member.ProxyManager.{sync_proxy_status, upgrade_if_needed, update_proxy_set}

module _ (env : Env) where
  loop-cc :
      (cluster : CellCluster) (rev : String) (n : ℕ) (w : World)
      → (proxy_loop env cluster rev n w).1.cc ≡ w.cc
  unfolding proxy_loop upgrade_proxy_pod
  loop-cc cluster rev zero w = refl
  loop-cc cluster rev (suc i) w = ground (arith, loop-cc cluster rev i w)

  update-cc : (old : StatefulSet) (w : World) → (update_if_changed env old w).1.cc ≡ w.cc
  unfolding update_if_changed update_stateful_set request
  update-cc old w = ground arith

  upgrade-cc :
      (old : StatefulSet) (w : World)
      → let before = w.cc.status in
        let after = (upgrade_if_needed env old w).1.cc.status in
        (after.pd ≡ before.pd)
        × (after.store ≡ before.store)
        × (after.proxy.members ≡ before.proxy.members)
        × ((after.proxy.phase ≡ before.proxy.phase)
            ⊎ (is_upgrade before.store.phase || is_upgrade before.pd.phase ≡ false))
  unfolding upgrade_if_needed ProxyUpgrader.upgrade keep_applied
  upgrade-cc old w = grind (arith, loop-cc)

  status-cc :
      (old : StatefulSet) (w : World)
      → let before = w.cc.status in
        let (r, w') = sync_proxy_status env old w in
        let after = w'.cc.status in
        (after.pd ≡ before.pd)
        × (after.store ≡ before.store)
        × (after.proxy.members ≡ before.proxy.members)
        × ((r ≢ ok tt)
            ⊎ (is_upgrade after.proxy.phase
                  && (is_upgrade before.store.phase || is_upgrade before.pd.phase)
                ≡ false))
  unfolding sync_proxy_status is_upgrading_by
  status-cc old w = ground arith

-- An update of the proxies' StatefulSet leaves the status of PD, of the stores and the recorded
-- proxies as they are, wherever it stops. If the proxies' own status could be synced, they are
-- afterwards not marked as upgrading while PD or the stores are.
pub update_proxy_set_waits :
    (env : Env) (old : StatefulSet) (w : World)
    → let before = w.cc.status in
      let after = (update_proxy_set env old w).1.cc.status in
      (after.pd ≡ before.pd)
      × (after.store ≡ before.store)
      × (after.proxy.members ≡ before.proxy.members)
      × (((sync_proxy_status env old w).0 ≢ ok tt)
          ⊎ (is_upgrade after.proxy.phase
                && (is_upgrade after.store.phase || is_upgrade after.pd.phase)
              ≡ false))
unfolding update_proxy_set
update_proxy_set_waits env old w =
    let w1 = (sync_proxy_status env old w).1 in
    let w2 = (upgrade_if_needed env old w1).1 in
    ground (arith, status-cc env old w, upgrade-cc env old w1, update-cc env old w2)
