-- ===== src/Tests/Flows.antt =====
-- A pod without ids, whose claim is bound to a volume, in one sync of labels.
use elasticell_operator.Base.{String, ◌⊎◌, ◌≡◌, ◌≢◌, refl, some, [], ◌∷◌, eq_iff, arith}
use elasticell_operator.Api.Pods.{claim}
use elasticell_operator.Api.Objects.{Pod, Pvc, Pv}
use elasticell_operator.Effects.{update_pvc, update_pv_meta, World, ok, pvc_at, pv_at, request}
use elasticell_operator.Controls.PodMeta
use elasticell_operator.Controls.PodMeta.{
  wanted_cluster_id, wanted_member_id, wanted_store_id, write_ids, store_id_of,
}
use elasticell_operator.Controls.ClaimMeta
use elasticell_operator.Controls.Volumes
use elasticell_operator.Controls.Volumes.{relabel_volume}
use elasticell_operator.Meta.Sync.{claim_name, sync_pod, resolve_pvc, sync_volume, real}
use elasticell_operator.Meta.Sync.Flows.{labelled, claim_of, Asked, IdsPassed, sync_pod_passes_ids}
use elasticell_operator.Util.Helpers.{set_if_not_empty}
use elasticell_operator.Tests.Data.{env, world, pod_named, pvc_named, pv_deleted}

abbrev pod : Pod
pod = record (pod_named "demo-store-3" "store" "old") {
  volumes = record { name = "store"; source = claim "store-demo-store-3" } ∷ [];
}

abbrev pvc : Pvc
pvc = pvc_named "store-demo-store-3"

abbrev pv : Pv
pv = record pv_deleted { claim_ref = some "store-demo-store-3" }

abbrev before : World
before = record world { pods = pod ∷ []; pvcs = pvc ∷ []; pvs = pv ∷ [] }

abbrev after : World
after = (sync_pod env (real env) pod before).1

volume_is_named : ◌≢◌ {A = String} "pv-1" ""
volume_is_named = λ e. ground (arith, (eq_iff "pv-1" "").1 e)

sync_pod_passes_ids_example :
    (c' : Pvc) × (v' : Pv) × (pvc_at env
        (labelled env pod before).namespace
        (claim_of env pod before)
        after.pvcs
      ≡ ok c')
    × (pv_at env "pv-1" after.pvs ≡ ok v')
    × IdsPassed (labelled env pod before) c' v'
    × ((c'.labels ≡ pvc.labels) ⊎ Asked (update_pvc c') after)
    × ((v' ≡ pv) ⊎ Asked (update_pv_meta v') after)
unfolding sync_pod resolve_pvc sync_volume claim_name PodMeta.update_meta_info wanted_cluster_id
    wanted_member_id wanted_store_id write_ids store_id_of ClaimMeta.update_meta_info
    ClaimMeta.is_synced ClaimMeta.with_meta relabel_volume Volumes.is_synced Volumes.with_meta
    pvc_at pv_at request set_if_not_empty
sync_pod_passes_ids_example =
    sync_pod_passes_ids env pod before after pvc pv refl refl refl volume_is_named refl refl refl
