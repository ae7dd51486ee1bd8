-- ===== src/Member/StoreManager/Order.antt =====
-- The stores are upgraded after PD (store_member_manager.go, store_upgrader.go).
use elasticell_operator.Base.{◌⊎◌, ◌≢◌, ℕ, zero, suc, ◌≡◌, refl, false, ◌&&◌, String, arith}
use elasticell_operator.Api.Objects.{StatefulSet}
use elasticell_operator.Api.Cluster.{CellCluster, is_upgrade}
use elasticell_operator.Effects.{World, Env, ok, request}
use elasticell_operator.Member.Revisions.{is_upgrading_by}
use elasticell_operator.Member.ProxyUpgrader.{keep_applied}
use elasticell_operator.Member.Scaler.{delete_defer_deleting_pvc}
use elasticell_operator.Member.StoreScaler.{scale_out}
use elasticell_operator.Member.StoreUpgrader
use elasticell_operator.Member.StoreUpgrader.{store_loop, upgrade_store_pod, begin_evict, end_evict}
use elasticell_operator.Member.Update.{update_if_changed, update_stateful_set}
use elasticell_operator.Member.StoreManager.{
  sync_store_status, upgrade_if_needed, scale_out_if_more, keep_if_less, update_store_set,
}

module _ (env : Env) where
  pod-cc :
      (cluster : CellCluster) (i : ℕ) (w : World)
      → ((upgrade_store_pod env cluster i w).1.cc ≡ w.cc)
        × ((end_evict env cluster i w).1.cc ≡ w.cc)
  unfolding upgrade_store_pod begin_evict end_evict request
  pod-cc cluster i w = ground arith

  loop-cc :
      (cluster : CellCluster) (rev : String) (n : ℕ) (w : World)
      → (store_loop env cluster rev n w).1.cc ≡ w.cc
  unfolding store_loop
  loop-cc cluster rev zero w = refl
  loop-cc cluster rev (suc i) w = ground (
    arith,
    pod-cc cluster i w,
    loop-cc cluster rev i w,
    loop-cc cluster rev i (end_evict env cluster i w).1,
  )

  scaling-cc :
      (old : StatefulSet) (w : World)
      → ((scale_out_if_more env old w).1.cc ≡ w.cc) × ((keep_if_less env old w).1.cc ≡ w.cc)
  unfolding scale_out_if_more scale_out delete_defer_deleting_pvc request keep_if_less
  scaling-cc old w = ground arith

  update-cc : (old : StatefulSet) (w : World) → (update_if_changed env old w).1.cc ≡ w.cc
  unfolding update_if_changed update_stateful_set request
  update-cc old w = ground arith

  upgrade-cc :
      (old : StatefulSet) (w : World)
      → let before = w.cc.status in
        let after = (upgrade_if_needed env old w).1.cc.status in
        (after.pd ≡ before.pd)
        × (after.proxy ≡ before.proxy)
        × ((after.store.phase ≡ before.store.phase) ⊎ (is_upgrade before.pd.phase ≡ false))
  unfolding upgrade_if_needed StoreUpgrader.upgrade keep_applied
  upgrade-cc old w = grind (arith, loop-cc)

  status-cc :
      (old : StatefulSet) (w : World)
      → let before = w.cc.status in
        let (r, w') = sync_store_status env old w in
        let after = w'.cc.status in
        (after.pd ≡ before.pd)
        × (after.proxy ≡ before.proxy)
        × ((r ≢ ok tt) ⊎ (is_upgrade after.store.phase && is_upgrade before.pd.phase ≡ false))
  unfolding sync_store_status is_upgrading_by
  status-cc old w = ground arith

-- An update of the stores' StatefulSet leaves the status of PD and of the proxies as it is,
-- wherever it stops. If the stores' own status could be synced, they are afterwards not marked as
-- upgrading while PD is.
pub update_store_set_waits :
    (env : Env) (old : StatefulSet) (w : World)
    → let before = w.cc.status in
      let after = (update_store_set env old w).1.cc.status in
      (after.pd ≡ before.pd)
      × (after.proxy ≡ before.proxy)
      × (((sync_store_status env old w).0 ≢ ok tt)
          ⊎ (is_upgrade after.store.phase && is_upgrade after.pd.phase ≡ false))
unfolding update_store_set
update_store_set_waits env old w =
    let w1 = (sync_store_status env old w).1 in
    let w2 = (upgrade_if_needed env old w1).1 in
    let w3 = (scale_out_if_more env old w2).1 in
    let w4 = (keep_if_less env old w3).1 in
    ground (
      arith,
      status-cc env old w,
      upgrade-cc env old w1,
      scaling-cc env old w2,
      scaling-cc env old w3,
      update-cc env old w4,
    )
