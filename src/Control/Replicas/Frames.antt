-- ===== src/Control/Replicas/Frames.antt =====
-- What leaves the StatefulSets alone: everything in a sync but the updates of the three managers.
use elasticell_operator.Base.{String, List, [], ◌∷◌, Dict, arith}
use elasticell_operator.Api.Objects.{Pod, Pvc}
use elasticell_operator.Effects.{World, Env, request}
use elasticell_operator.Member.Update.Asked.{asked, Same}
use elasticell_operator.Member.ServiceSync.{
  sync_pd_service, sync_pd_headless_service, sync_store_headless_service, create_new_service,
  update_annotated, update_unannotated,
}
use elasticell_operator.Meta.Reclaim
use elasticell_operator.Meta.Reclaim.{retain, retain_all}
use elasticell_operator.Member.Orphans.{SkipReason, clean_pod, clean_pods, clean}
use elasticell_operator.Controls.PodMeta
use elasticell_operator.Controls.ClaimMeta
use elasticell_operator.Controls.Volumes.{relabel_volume}
use elasticell_operator.Meta.Sync
use elasticell_operator.Meta.Sync.{real, sync_pod, sync_pods, sync_volume, resolve_pvc}

module _ (env : Env) where
  retain-Same : (policy : String) (pvc : Pvc) (w : World) → Same w (retain env policy pvc w).1
  unfolding retain request asked
  retain-Same policy pvc w = ground arith

  retain_all-Same :
      (policy : String) (pvcs : List Pvc) (w : World) → Same w (retain_all env policy pvcs w).1
  unfolding retain_all
  retain_all-Same policy [] w = ground arith
  retain_all-Same policy (pvc ∷ pvcs) w =
      ground
        (arith, retain-Same policy pvc w, retain_all-Same policy pvcs (retain env policy pvc w).1)

  pub reclaim-Same : (w : World) → Same w (Reclaim.sync env w).1
  unfolding Reclaim.sync
  reclaim-Same w = grind (arith, retain_all-Same)

  clean_pod-Same : (ns : String) (pod : Pod) (w : World) → Same w (clean_pod env ns pod w).1
  unfolding clean_pod request asked
  clean_pod-Same ns pod w = ground arith

  clean_pods-Same :
      (ns : String) (pods : List Pod) (skipped : Dict SkipReason) (w : World)
      → Same w (clean_pods env ns pods skipped w).1
  unfolding clean_pods
  clean_pods-Same ns [] skipped w = ground arith
  clean_pods-Same ns (pod ∷ pods) skipped w =
      grind (arith, clean_pod-Same ns pod w, clean_pods-Same ns pods)

  pub clean-Same : (w : World) → Same w (clean env w).1
  unfolding clean
  clean-Same w = grind (arith, clean_pods-Same)

  pub pd_service-Same : (w : World) → Same w (sync_pd_service env w).1
  unfolding sync_pd_service create_new_service update_annotated request asked
  pd_service-Same w = ground arith

  pub pd_headless-Same : (w : World) → Same w (sync_pd_headless_service env w).1
  unfolding sync_pd_headless_service create_new_service update_unannotated request asked
  pd_headless-Same w = ground arith

  pub store_headless-Same : (w : World) → Same w (sync_store_headless_service env w).1
  unfolding sync_store_headless_service create_new_service update_unannotated request asked
  store_headless-Same w = ground arith

  pod_meta-Same : (pod : Pod) (w : World) → Same w (PodMeta.update_meta_info env pod w).1
  unfolding PodMeta.update_meta_info PodMeta.write_ids request asked
  pod_meta-Same pod w = ground arith

  claim_meta-Same :
      (pvc : Pvc) (pod : Pod) (w : World) → Same w (ClaimMeta.update_meta_info env pvc pod w).1
  unfolding ClaimMeta.update_meta_info request asked
  claim_meta-Same pvc pod w = ground arith

  volume-Same : (pvc : Pvc) (w : World) → Same w (sync_volume env (real env) pvc w).1
  unfolding sync_volume relabel_volume request asked
  volume-Same pvc w = ground arith

  sync_pod-Same : (pod : Pod) (w : World) → Same w (sync_pod env (real env) pod w).1
  unfolding sync_pod resolve_pvc
  sync_pod-Same pod w = grind (arith, pod_meta-Same, claim_meta-Same, volume-Same)

  sync_pods-Same : (pods : List Pod) (w : World) → Same w (sync_pods env (real env) pods w).1
  unfolding sync_pods
  sync_pods-Same [] w = ground arith
  sync_pods-Same (pod ∷ pods) w =
      ground (arith, sync_pod-Same pod w, sync_pods-Same pods (sync_pod env (real env) pod w).1)

  pub meta-Same : (w : World) → Same w (Sync.sync env (real env) w).1
  unfolding Sync.sync
  meta-Same w = grind (arith, sync_pods-Same)
