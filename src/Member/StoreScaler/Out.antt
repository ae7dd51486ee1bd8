-- ===== src/Member/StoreScaler/Out.antt =====
-- Scaling the stores out (store_scaler.go).
use elasticell_operator.Base.{
  ◌≡◌, ◌≢◌, ◌⊎◌, true, false, String, Option, none, some, List, ◌∷◌, lookup, is_some, add32, arith,
}
use elasticell_operator.Api.Objects.{StatefulSet, Pvc}
use elasticell_operator.Api.Cluster.{store}
use elasticell_operator.Api.Status.{store_upgrading}
use elasticell_operator.Label.{ann_pvc_defer_deleting}
use elasticell_operator.Names.{ordinal_pvc_name}
use elasticell_operator.Effects.{Result, ok, err, World, Env, Call, delete_pvc, pvc_at, request}
use elasticell_operator.Member.Scaler.{delete_defer_deleting_pvc, set_replicas}
use elasticell_operator.Member.StoreScaler.{scale_out}

-- The claim of the next ordinal was marked by an earlier scale-in.
abbrev pub marked_for_deletion : Result Pvc → Option String
marked_for_deletion (err e) = none
marked_for_deletion (ok pvc) = elim pvc.annotations [
  | none ↦ none
  | some m ↦ elim (is_some (lookup ann_pvc_defer_deleting m)) [
    | true ↦ some pvc.name
    | false ↦ none
  ]
]

abbrev pub deletions : Option String → List Call → List Call
deletions none calls = calls
deletions (some name) calls = delete_pvc name ∷ calls

-- Scaling out touches nothing but the replicas of the new StatefulSet and at most one claim, and
-- the replicas become those of the old StatefulSet, or one more. They become one more exactly when
-- it succeeds while the stores are not upgrading. Unless they are, it has asked to delete the claim
-- of the new ordinal, whether or not that is granted, if and only if the claim was found and marked
-- for deferred deletion.
pub scale_out_steps :
    (env : Env) (old : StatefulSet) (w : World)
    → let claim =
        pvc_at env w.cc.namespace (ordinal_pvc_name store old.name old.spec.replicas) w.pvcs in
      let (r, w') = scale_out env old w in
      ((store_upgrading w.cc ≡ true) × (r ≡ ok tt) × (w' ≡ set_replicas old.spec.replicas w))
      ⊎ ((store_upgrading w.cc ≡ false)
          × (r ≡ ok tt)
          × (w' ≡ record (set_replicas (add32 old.spec.replicas 1) w) {
            calls = deletions (marked_for_deletion claim) w.calls;
          }))
      ⊎ ((store_upgrading w.cc ≡ false)
          × (r ≢ ok tt)
          × (w' ≡ record (set_replicas old.spec.replicas w) {
            calls = deletions (marked_for_deletion claim) w.calls;
          }))
unfolding scale_out delete_defer_deleting_pvc request
scale_out_steps env old w = ground arith
