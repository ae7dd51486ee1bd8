-- ===== src/Meta/Reclaim/Patches.antt =====
-- What the reclaim policy manager asks for.
use elasticell_operator.Base.{String, ◌≡◌, List, [], ◌∷◌, ◌==◌, if◌then◌else◌, arith}
use elasticell_operator.Api.Objects.{Pvc, Pv}
use elasticell_operator.Label
use elasticell_operator.Label.{instance_label_key, fresh, with_instance}
use elasticell_operator.Effects.{
  patch_pv, Call, World, Env, Result, ok, err, pv_at, pvcs_with, bind-ok, request,
}
use elasticell_operator.Meta.Reclaim.{retain, retain_all, sync}

-- The patch that a claim needs: of its volume, if it has one with another policy.
abbrev patch_of : String → Result Pv → List Call → List Call
patch_of policy (err e) calls = calls
patch_of policy (ok pv) calls =
    if pv.reclaim_policy == policy then calls else patch_pv pv.name policy ∷ calls

abbrev pub patches : Env → String → List Pv → List Pvc → List Call → List Call
patches env policy pvs [] calls = calls
patches env policy pvs (pvc ∷ pvcs) calls =
    patches env policy pvs pvcs (
      if pvc.volume_name == ""
      then calls
      else patch_of policy (pv_at env pvc.volume_name pvs) calls)

abbrev with_calls : World → List Call → World
with_calls w calls = record w { calls = calls }

-- The claim's volume was found, or was not needed.
retain_ok :
    (env : Env) (policy : String) (pvc : Pvc) (w : World) {u : Unit {0}}
    → (retain env policy pvc w).0 ≡ ok u
    → (retain env policy pvc w).1 ≡ with_calls w (patches env policy w.pvs (pvc ∷ []) w.calls)
unfolding retain request
retain_ok env policy pvc w {u} h = ground arith

retain_all_ok :
    (env : Env) (policy : String) (pvcs : List Pvc) (w w' : World)
    → retain_all env policy pvcs w ≡ (ok tt, w')
    → w' ≡ with_calls w (patches env policy w.pvs pvcs w.calls)
unfolding retain_all
retain_all_ok env policy [] w w' h = ground arith
retain_all_ok env policy (pvc ∷ pvcs) w w' h =
    let (u, first, rest) = bind-ok (retain env policy pvc) (λ _. retain_all env policy pvcs) w h in
    let after = (retain env policy pvc w).1 in
    ground (arith, retain_ok env policy pvc w first, retain_all_ok env policy pvcs after w' rest)

-- If the reclaim policy manager returns no error, it has asked for the wanted policy exactly for
-- the volumes of the cluster's claims that had another one, in the lister's order, and has
-- changed nothing else.
pub retain_patches :
    (env : Env) (w w' : World) (pvcs : List Pvc)
    → sync env w ≡ (ok tt, w')
    → pvcs_with env w.cc.namespace
        (with_instance (Label.get instance_label_key w.cc.labels) fresh)
        w.pvcs
      ≡ ok pvcs
    → w' ≡ record w { calls = patches env w.cc.spec.pv_reclaim_policy w.pvs pvcs w.calls }
unfolding sync
retain_patches env w w' pvcs h listed =
    retain_all_ok env w.cc.spec.pv_reclaim_policy pvcs w w' (ground arith)
