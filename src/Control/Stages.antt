-- ===== src/Control/Stages.antt =====
-- The order of the stages of a sync (cell_cluster_control.go).
use elasticell_operator.Base.{◌≡◌, ◌≢◌, ◌⊎◌, false, arith}
use elasticell_operator.Api.Status.{pd_is_available, store_is_available}
use elasticell_operator.Effects.{ok, World, Env}
use elasticell_operator.Member.StoreManager
use elasticell_operator.Member.ProxyManager
use elasticell_operator.Control.{sync_pd, sync_store, sync_proxy, sync_cluster}

-- While PD has no quorum of healthy members, or its stage of a sync failed, the stores, the
-- proxies and the labels are left alone: the sync ends with an error, in the state and with the
-- requests that the stage of PD left.
pub stores_wait_for_pd :
    (env : Env) (w : World)
    → ((sync_pd env w).0 ≢ ok tt) ⊎ (pd_is_available (sync_pd env w).1.cc ≡ false)
    → ((sync_cluster env w).1 ≡ (sync_pd env w).1) × ((sync_cluster env w).0 ≢ ok tt)
unfolding sync_cluster sync_store StoreManager.sync
stores_wait_for_pd env w h = ground arith

-- While no store is up after the stage of the stores, or that stage failed, a sync of the cluster
-- leaves the proxies and the labels alone: it ends with an error, in the state that the stage of
-- the stores left, which comes after that of PD, or, if that failed, in the state that PD's left.
pub proxies_wait_for_stores :
    (env : Env) (w : World)
    → let (r, w1) = sync_pd env w in
      let (s, w2) = StoreManager.sync env w1 in
      (s ≢ ok tt) ⊎ (store_is_available w2.cc ≡ false)
      → ((sync_cluster env w).0 ≢ ok tt)
        × (((r ≢ ok tt) × ((sync_cluster env w).1 ≡ w1))
            ⊎ ((r ≡ ok tt) × ((sync_cluster env w).1 ≡ w2)))
unfolding sync_cluster sync_store sync_proxy ProxyManager.sync
proxies_wait_for_stores env w h = ground arith
