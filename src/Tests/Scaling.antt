-- ===== src/Tests/Scaling.antt =====
-- Scaling the stores, and marking lost ones.
use elasticell_operator.Base.{
  ◌≡◌, ◌≢◌, ◌⊎◌, ◌↔◌, Any, refl, true, false, pos, none, pred32, add32, [], ◌∷◌, Dict,
}
use elasticell_operator.Api.Objects.{StatefulSet, Pod, Pvc}
use elasticell_operator.Api.Cluster.{store, KvStore, down}
use elasticell_operator.Api.Status.{store_upgrading}
use elasticell_operator.Names.{ordinal_pvc_name, ordinal_pod_name}
use elasticell_operator.Effects.{update_pvc, ok, World, pvc_at, pod_at}
use elasticell_operator.Member.Scaler.{set_replicas}
use elasticell_operator.Member.StoreScaler.{scale_out, scale_in}
use elasticell_operator.Member.StoreScaler.Out.{scale_out_steps, deletions, marked_for_deletion}
use elasticell_operator.Member.StoreScaler.In.{scale_in_cases, HasLeft, deferred}
use elasticell_operator.Member.Failover.{mark, mark_all, already_failed}
use elasticell_operator.Member.Failover.Marks.{mark_all_failures, LostIn}
use elasticell_operator.Tests.Data.{env, world, set_named, kv_store}

abbrev old : StatefulSet
old = set_named "demo-store"

abbrev wanted : World
wanted = set_replicas (pos 5) (record world { draft = old })

scale_out_steps_example :
    let claim = pvc_at env "prod" (ordinal_pvc_name store "demo-store" (pos 3)) wanted.pvcs in
    let (r, w') = scale_out env old wanted in
    ((store_upgrading wanted.cc ≡ true) × (r ≡ ok tt) × (w' ≡ set_replicas (pos 3) wanted))
    ⊎ ((store_upgrading wanted.cc ≡ false)
        × (r ≡ ok tt)
        × (w' ≡ record (set_replicas (add32 (pos 3) 1) wanted) {
          calls = deletions (marked_for_deletion claim) [];
        }))
    ⊎ ((store_upgrading wanted.cc ≡ false)
        × (r ≢ ok tt)
        × (w' ≡ record (set_replicas (pos 3) wanted) {
          calls = deletions (marked_for_deletion claim) [];
        }))
scale_out_steps_example = scale_out_steps env old wanted

scale_in_cases_example :
    let ordinal = pred32 (pos 3) in
    let pod_name = ordinal_pod_name store "demo" ordinal in
    let (r, w') = scale_in env old wanted in
    ((store_upgrading wanted.cc ≡ true) × (r ≡ ok tt) × (w' ≡ set_replicas (pos 3) wanted))
    ⊎ ((store_upgrading wanted.cc ≡ false)
        × (r ≡ ok tt)
        × (w'.draft ≡ (set_replicas ordinal wanted).draft)
        × ((pod : Pod) × (pod_at env "prod" pod_name wanted.pods ≡ ok pod)
            × HasLeft wanted.cc pod_name pod)
        × ((c : Pvc) × (pvc_at env "prod" (ordinal_pvc_name store "demo-store" ordinal) wanted.pvcs
              ≡ ok c)
            × (env.reply [] (update_pvc (deferred env c)) ≡ none)
            × (w'.calls ≡ update_pvc (deferred env c) ∷ [])))
    ⊎ ((store_upgrading wanted.cc ≡ false)
        × (r ≢ ok tt)
        × (w'.draft ≡ (set_replicas (pos 3) wanted).draft))
scale_in_cases_example = scale_in_cases env old wanted

abbrev stores : Dict KvStore
stores =
    ("1", kv_store "1" "demo-store-0" 0)
    ∷ ("2", record (kv_store "2" "demo-store-1" 0) { state = down })
    ∷ []

mark_all_failures_example :
    (already_failed "demo-store-1" (mark_all 100 60 stores []) ≡ true)
    ↔ ((already_failed "demo-store-1" [] ≡ true) ⊎ Any (LostIn 100 60 "demo-store-1") stores)
mark_all_failures_example =
    mark_all_failures 100 60 "demo-store-1" stores [] (refl, refl, (refl, refl, tt))

-- The store of the second pod is marked.
mark_all_marks : already_failed "demo-store-1" (mark_all 100 60 stores []) ≡ true
unfolding mark_all mark
mark_all_marks = refl
