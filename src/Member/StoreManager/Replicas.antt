-- ===== src/Member/StoreManager/Replicas.antt =====
-- The replicas of the stores' StatefulSet change slowly (store_member_manager.go, store_scaler.go).
use elasticell_operator.Base.{ℕ, zero, suc, ◌≡◌, ◌⊎◌, add32, String, arith, ◌∷◌}
use elasticell_operator.Api.Objects.{StatefulSet}
use elasticell_operator.Api.Cluster.{CellCluster}
use elasticell_operator.Effects.{ok, World, Env, request}
use elasticell_operator.Member.Scaler.{delete_defer_deleting_pvc}
use elasticell_operator.Member.StoreScaler.{scale_out}
use elasticell_operator.Member.StoreUpgrader
use elasticell_operator.Member.StoreUpgrader.{store_loop, upgrade_store_pod, begin_evict, end_evict}
use elasticell_operator.Member.Update.Asked.{asked, ask_for, Same, ltb_ℤ-antisym, update-asked}
use elasticell_operator.Member.Revisions.{is_upgrading_by}
use elasticell_operator.Member.ProxyUpgrader.{keep_applied}
use elasticell_operator.Member.StoreManager.{
  sync_store_status, upgrade_if_needed, scale_out_if_more, keep_if_less, update_store_set,
}

module _ (env : Env) (old : StatefulSet) where
  clamp-replicas :
      (w : World)
      → let w' = (scale_out_if_more env old w).1 in
        let v = (keep_if_less env old w').1 in
        ((scale_out_if_more env old w).0 ≡ ok tt)
        → (v.draft.spec.replicas ≡ old.spec.replicas)
          ⊎ (v.draft.spec.replicas ≡ add32 old.spec.replicas 1)
  unfolding scale_out_if_more keep_if_less scale_out delete_defer_deleting_pvc request
  clamp-replicas w h = ground (arith, ltb_ℤ-antisym w.draft.spec.replicas old.spec.replicas)

  pub store_status-Same : (w : World) → Same w (sync_store_status env old w).1
  unfolding sync_store_status is_upgrading_by
  store_status-Same w = ground arith

  store_pod-Same :
      (cluster : CellCluster) (i : ℕ) (w : World) → Same w (upgrade_store_pod env cluster i w).1
  unfolding upgrade_store_pod begin_evict request asked
  store_pod-Same cluster i w = ground arith

  end_evict-Same :
      (cluster : CellCluster) (i : ℕ) (w : World) → Same w (end_evict env cluster i w).1
  unfolding end_evict request asked
  end_evict-Same cluster i w = ground arith

  store_loop-Same :
      (cluster : CellCluster) (rev : String) (n : ℕ) (w : World)
      → Same w (store_loop env cluster rev n w).1
  unfolding store_loop
  store_loop-Same cluster rev zero w = ground arith
  store_loop-Same cluster rev (suc i) w = ground (
    arith,
    store_pod-Same cluster i w,
    store_loop-Same cluster rev i w,
    end_evict-Same cluster i w,
    store_loop-Same cluster rev i (end_evict env cluster i w).1,
  )

  pub store_upgrade-Same : (w : World) → Same w (upgrade_if_needed env old w).1
  unfolding upgrade_if_needed StoreUpgrader.upgrade keep_applied
  store_upgrade-Same w = grind (arith, store_loop-Same)

  pub clamp-Same :
      (w : World) → Same w (scale_out_if_more env old w).1 × Same w (keep_if_less env old w).1
  unfolding scale_out_if_more keep_if_less scale_out delete_defer_deleting_pvc request asked
  clamp-Same w = ground arith

-- Whatever the stores' status and pods are, and wherever it stops, an update of an existing
-- StatefulSet asks the API server for at most one update, of that one, to as many replicas as before or to one
-- more: it never asks for fewer, and never for two more.
pub update_store_set_steps :
    (env : Env) (old : StatefulSet) (w : World)
    → let after = asked (update_store_set env old w).1.calls in
      (after ≡ asked w.calls)
      ⊎ (after ≡ ask_for old old.spec.replicas ∷ asked w.calls)
      ⊎ (after ≡ ask_for old (add32 old.spec.replicas 1) ∷ asked w.calls)
unfolding update_store_set
update_store_set_steps env old w =
    let w1 = (sync_store_status env old w).1 in
    let w2 = (upgrade_if_needed env old w1).1 in
    let w3 = (scale_out_if_more env old w2).1 in
    let w4 = (keep_if_less env old w3).1 in
    ground (
      arith,
      store_status-Same env old w,
      store_upgrade-Same env old w1,
      clamp-Same env old w2,
      clamp-Same env old w3,
      clamp-replicas env old w2,
      update-asked env old w4,
    )
