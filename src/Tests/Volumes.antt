-- ===== src/Tests/Volumes.antt =====
-- Orphan pods, reclaim policies and labels.
use elasticell_operator.Base.{◌≡◌, refl, select, [], ◌∷◌}
use elasticell_operator.Api.Pods.{claim}
use elasticell_operator.Api.Objects.{Pod}
use elasticell_operator.Effects.{
  World, pods_with, pvcs_with, pod_at, pvc_at, pv_at, matches, request,
}
use elasticell_operator.Label
use elasticell_operator.Member.Orphans.{clean, clean_pods, clean_pod}
use elasticell_operator.Member.Orphans.Deletes.{
  clean_deletes_orphans, with_calls, delete_all, is_orphan,
}
use elasticell_operator.Meta.Reclaim
use elasticell_operator.Meta.Reclaim.{retain, retain_all}
use elasticell_operator.Meta.Reclaim.Patches.{retain_patches, patches}
use elasticell_operator.Meta.Sync as MetaSync
use elasticell_operator.Meta.Sync.{claim_name, resolve_pvc, sync_volume, sync_pod, sync_pods}
use elasticell_operator.Meta.Sync.Labelled.{asking}
use elasticell_operator.Tests.Data.{env, world, pod_named}

-- A pod whose claim does not exist, before it was given a node.
abbrev orphan : Pod
orphan = record (pod_named "demo-store-4" "store" "old") {
  volumes = record { name = "store"; source = claim "store-demo-store-4" } ∷ [];
  node_name = "";
  phase = "Pending";
}

-- A pod whose claim is bound to a volume.
abbrev bound : Pod
bound = record (pod_named "demo-store-3" "store" "old") {
  volumes = record { name = "store"; source = claim "store-demo-store-3" } ∷ [];
}

abbrev volumes : World
volumes = record world { pods = orphan ∷ bound ∷ [] }

abbrev cleaned : World
cleaned = (clean env volumes).1

clean_deletes_orphans_example :
    cleaned
    ≡ with_calls volumes
        (delete_all (select (is_orphan env "prod" volumes.pvcs) (orphan ∷ bound ∷ [])) [])
unfolding clean clean_pods clean_pod pods_with matches pvc_at pod_at request Label.is_pd
    Label.is_store
clean_deletes_orphans_example =
    clean_deletes_orphans env volumes cleaned (orphan ∷ bound ∷ []) _ refl refl

abbrev patched : World
patched = (Reclaim.sync env world).1

retain_patches_example :
    patched ≡ record world { calls = patches env "Retain" world.pvs world.pvcs [] }
unfolding Reclaim.sync retain_all retain pvcs_with matches pv_at request
retain_patches_example = retain_patches env world patched world.pvcs refl refl

abbrev labelled_before : World
labelled_before = record world { pods = bound ∷ [] }

abbrev labelled : World
labelled = (MetaSync.sync env (asking env) labelled_before).1
