-- ===== src/Member/Scaler.antt =====
-- pkg/manager/member/scaler.go. `newSet` is the world's draft.
use elasticell_operator.Base.{
  String, true, false, Option, none, some, ℤ, lookup, add32, pred32, is_some,
}
use elasticell_operator.Api.Objects.{StatefulSet, Pvc}
use elasticell_operator.Api.Cluster.{MemberType}
use elasticell_operator.Label.{ann_pvc_defer_deleting}
use elasticell_operator.Names.{ordinal_pvc_name}
use elasticell_operator.Effects.{
  not_found, Result, ok, err, delete_pvc, World, Env, M, pure, fail, ◌>>◌, pvc_at, request,
}

-- Why a claim was left alone; the source keeps the text for its tests.
pub data SkipReason : Type 0 where
  pvc_not_found annotations_nil defer_deleting_empty : SkipReason

abbrev pub set_replicas : ℤ → World → World
set_replicas n w = record w {
  draft = record (w.draft) { spec = record (w.draft.spec) { replicas = n } };
}

abbrev pub reset_replicas : StatefulSet → World → World
reset_replicas old w = set_replicas old.spec.replicas w

abbrev pub increase_replicas : StatefulSet → World → World
increase_replicas old w = set_replicas (add32 old.spec.replicas 1) w

abbrev pub decrease_replicas : StatefulSet → World → World
decrease_replicas old w = set_replicas (pred32 old.spec.replicas) w

module _ (env : Env) where
  abbrev delete_marked : Pvc → M (Option SkipReason)
  delete_marked pvc = elim pvc.annotations [
    | none ↦ pure (some annotations_nil)
    | some m ↦ elim (is_some (lookup ann_pvc_defer_deleting m)) [
      | true ↦ do request env (delete_pvc pvc.name); pure none
      | false ↦ pure (some defer_deleting_empty)
    ]
  ]

  abbrev after_lookup : Result Pvc → M (Option SkipReason)
  after_lookup (ok pvc) = delete_marked pvc
  after_lookup (err not_found) = pure (some pvc_not_found)
  after_lookup (err e) = fail e

  -- The namespace is the cluster's.
  unfoldable pub delete_defer_deleting_pvc : String → MemberType → ℤ → M (Option SkipReason)
  delete_defer_deleting_pvc set_name member ordinal w =
      after_lookup (pvc_at env w.cc.namespace (ordinal_pvc_name member set_name ordinal) w.pvcs) w
