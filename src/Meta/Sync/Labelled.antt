-- ===== src/Meta/Sync/Labelled.antt =====
-- What the meta manager asks for.
use elasticell_operator.Base.{◌≡◌, refl, List, [], ◌∷◌, ◌==◌, if◌then◌else◌, arith}
use elasticell_operator.Api.Objects.{Pod, Pvc, Pv}
use elasticell_operator.Label
use elasticell_operator.Label.{instance_label_key, fresh, with_instance}
use elasticell_operator.Effects.{
  Call, update_pod_meta, update_pvc_meta, update_pv_meta, World, Env, Result, ok, err, pv_at,
  pvc_at, pods_with, bind-ok, request, pure, ◌>>◌,
}
use elasticell_operator.Meta.Sync.{
  MetaControls, claim_name, uses_volume, resolve_pvc, sync_volume, sync_pod, sync_pods, sync,
}

-- Controls that only note what they are asked for.
abbrev pub asking : Env → MetaControls
asking env = record {
  pod = λ pod. request env (update_pod_meta pod) >> pure pod;
  claim = λ pvc pod. request env (update_pvc_meta pvc pod);
  volume = λ pv. request env (update_pv_meta pv);
}

abbrev volume_updates : Result Pv → List Call → List Call
volume_updates (err e) calls = calls
volume_updates (ok pv) calls = update_pv_meta pv ∷ calls

abbrev claim_updates : Env → List Pv → Pod → Result Pvc → List Call → List Call
claim_updates env pvs pod (err e) calls = calls
claim_updates env pvs pod (ok pvc) calls =
    if pvc.volume_name == ""
    then update_pvc_meta pvc pod ∷ calls
    else volume_updates (pv_at env pvc.volume_name pvs) (update_pvc_meta pvc pod ∷ calls)

-- The updates of a pod, then of its claim, then of the claim's volume.
abbrev pod_updates : Env → World → Pod → List Call → List Call
pod_updates env w pod calls =
    if uses_volume pod
    then claim_updates env w.pvs pod (pvc_at env pod.namespace (claim_name pod.volumes "") w.pvcs)
        (update_pod_meta pod ∷ calls)
    else update_pod_meta pod ∷ calls

abbrev pub updates : Env → World → List Pod → List Call → List Call
updates env w [] calls = calls
updates env w (pod ∷ pods) calls = updates env w pods (pod_updates env w pod calls)

abbrev with_calls : World → List Call → World
with_calls w calls = record w { calls = calls }

sync_pod_ok :
    (env : Env) (pod : Pod) (w : World) {u : Unit {0}}
    → (sync_pod env (asking env) pod w).0 ≡ ok u
    → (sync_pod env (asking env) pod w).1 ≡ with_calls w (pod_updates env w pod w.calls)
unfolding sync_pod resolve_pvc sync_volume request
sync_pod_ok env pod w {u} h = ground arith

updates-with_calls :
    (env : Env) (w : World) (c : List Call) (pods : List Pod) (calls : List Call)
    → updates env (with_calls w c) pods calls ≡ updates env w pods calls
updates-with_calls env w c [] calls = refl
updates-with_calls env w c (pod ∷ pods) calls =
    updates-with_calls env w c pods (pod_updates env w pod calls)

sync_pods_ok :
    (env : Env) (pods : List Pod) (w w' : World)
    → sync_pods env (asking env) pods w ≡ (ok tt, w')
    → w' ≡ with_calls w (updates env w pods w.calls)
unfolding sync_pods
sync_pods_ok env [] w w' h = ground arith
sync_pods_ok env (pod ∷ pods) w w' h =
    let (u, first, rest) =
      bind-ok (sync_pod env (asking env) pod) (λ _. sync_pods env (asking env) pods) w h in
    let after = (sync_pod env (asking env) pod w).1 in
    let calls = pod_updates env w pod w.calls in
    ground (
      arith,
      sync_pod_ok env pod w first,
      updates-with_calls env w calls pods calls,
      sync_pods_ok env pods after w' rest,
    )

-- If the meta manager returns no error, it has asked its controls, for each of the cluster's pods in the
-- lister's order, for the update of the pod, and for a pod of PD or of the stores also of its
-- claim and of the volume that the claim is bound to, in this order, and for nothing else.
pub sync-updates :
    (env : Env) (w w' : World) (pods : List Pod)
    → sync env (asking env) w ≡ (ok tt, w')
    → pods_with env w.cc.namespace
        (with_instance (Label.get instance_label_key w.cc.labels) fresh)
        w.pods
      ≡ ok pods
    → w' ≡ record w { calls = updates env w pods w.calls }
unfolding sync
sync-updates env w w' pods h listed = sync_pods_ok env pods w w' (ground arith)
