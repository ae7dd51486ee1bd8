-- ===== src/Member/PdManager/NoScale.antt =====
-- The replicas of PD's StatefulSet are never changed (pd_member_manager.go).
use elasticell_operator.Base.{ℕ, zero, suc, Option, ◌≡◌, refl, ◌⊎◌, List, [], ◌∷◌, String, arith}
use elasticell_operator.Api.Objects.{StatefulSet, Pod, SetStatus}
use elasticell_operator.Api.Cluster.{CellCluster}
use elasticell_operator.Effects.{World, Env}
use elasticell_operator.Member.PdUpgrader
use elasticell_operator.Member.PdUpgrader.{
  graceful_loop, graceful_upgrade, upgrade_pd_pod, need_force_upgrade, force_upgrade,
  count_pull_failures,
}
use elasticell_operator.Member.Revisions.{is_upgrading_by}
use elasticell_operator.Member.Update.Asked.{asked, ask_for, Same, eqb_ℤ→eq, update-asked}
use elasticell_operator.Member.PdManager.{
  sync_pd_status, upgrade_if_needed, update_unless_scaled, update_pd_set,
}

module _ (env : Env) (old : StatefulSet) where
  pub pd_status-Same : (w : World) → Same w (sync_pd_status env old w).1
  unfolding sync_pd_status is_upgrading_by
  pd_status-Same w = ground arith

  pd_loop-Same :
      (cluster : CellCluster) (rev : String) (n : ℕ) (w : World)
      → Same w (graceful_loop env cluster rev n w).1
  unfolding graceful_loop upgrade_pd_pod
  pd_loop-Same cluster rev zero w = ground arith
  pd_loop-Same cluster rev (suc i) w = ground (arith, pd_loop-Same cluster rev i w)

  graceful-Same : (w : World) → Same w (graceful_upgrade env old w).1
  unfolding graceful_upgrade
  graceful-Same w = grind (arith, pd_loop-Same)

  count-same :
      (status : Option SetStatus) (pods : List Pod) (n : ℕ) (w : World)
      → (count_pull_failures env status pods n w).1 ≡ w
  unfolding count_pull_failures
  count-same status [] n w = refl
  count-same status (pod ∷ pods) n w = grind (arith, count-same status pods)

  need_force-same : (w : World) → (need_force_upgrade env w).1 ≡ w
  unfolding need_force_upgrade
  need_force-same w = grind (arith, count-same)

  pub pd_upgrade-Same : (w : World) → Same w (upgrade_if_needed env old w).1
  unfolding upgrade_if_needed PdUpgrader.upgrade force_upgrade
  pd_upgrade-Same w = ground (arith, need_force-same w, graceful-Same w)

  unscaled-asked :
      (w : World)
      → let calls = (update_unless_scaled env old w).1.calls in
        (asked calls ≡ asked w.calls)
        ⊎ (asked calls ≡ ask_for old old.spec.replicas ∷ asked w.calls)
  unfolding update_unless_scaled
  unscaled-asked w =
      ground (arith, eqb_ℤ→eq w.draft.spec.replicas old.spec.replicas, update-asked env old w)

-- Whatever PD's status and pods are, and wherever it stops, an update of an existing StatefulSet
-- of PD asks the API server for at most one update, of that one and to exactly as many replicas as before.
pub update_pd_set_never_scales :
    (env : Env) (old : StatefulSet) (w : World)
    → let after = asked (update_pd_set env old w).1.calls in
      (after ≡ asked w.calls) ⊎ (after ≡ ask_for old old.spec.replicas ∷ asked w.calls)
unfolding update_pd_set
update_pd_set_never_scales env old w =
    let w1 = (sync_pd_status env old w).1 in
    let w2 = (upgrade_if_needed env old w1).1 in
    ground (arith, pd_status-Same env old w, pd_upgrade-Same env old w1, unscaled-asked env old w2)
