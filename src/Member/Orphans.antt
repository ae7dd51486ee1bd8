-- ===== src/Member/Orphans.antt =====
-- pkg/manager/member/orphan_pods_cleaner.go
pub mod Deletes
use elasticell_operator.Base.{
  String, Bool, true, false, ◌||◌, Option, none, some, List, [], ◌∷◌, Dict, insert, not, ◌==◌,
  if◌then◌else◌,
}
use elasticell_operator.Api.Pods.{Volume, VolumeSource, claim}
use elasticell_operator.Api.Objects.{Pod, Pvc}
use elasticell_operator.Label
use elasticell_operator.Label.{instance_label_key, fresh, with_instance, is_pd, is_store}
use elasticell_operator.Effects.{
  Error, not_found, Result, ok, err, delete_pod, World, Env, M, pure, fail, gets, ◌>>=◌, ◌>>◌,
  pvc_at, list_pods, request,
}

pub data SkipReason : Type 0 where
  not_pd_or_store pvc_name_empty pvc_found : SkipReason

abbrev claim_of : VolumeSource → Option String
claim_of (claim name) = some name
claim_of _ = none

-- The name of the first volume's claim, if it has one; the empty text if none has.
abbrev pub pvc_name : List Volume → String
pvc_name [] = ""
pvc_name (v ∷ vs) = elim (claim_of v.source) [ some name ↦ name | none ↦ pvc_name vs ]

abbrev pub has_claims : Pod → Bool
has_claims pod = is_pd pod.labels || is_store pod.labels

module _ (env : Env) (namespace : String) where
  abbrev after_lookup : Pod → Result Pvc → M (Option SkipReason)
  after_lookup pod (ok pvc) = pure (some pvc_found)
  after_lookup pod (err not_found) = do request env (delete_pod pod.name); pure none
  after_lookup pod (err e) = fail e

  -- The body of the loop: the reason to skip the pod, if it was not deleted.
  unfoldable pub clean_pod : Pod → M (Option SkipReason)
  clean_pod pod w =
      if not (has_claims pod)
      then (ok (some not_pd_or_store), w)
      else if pvc_name pod.volumes == ""
      then (ok (some pvc_name_empty), w)
      else after_lookup pod (pvc_at env namespace (pvc_name pod.volumes) w.pvcs) w

  abbrev note : String → Option SkipReason → Dict SkipReason → Dict SkipReason
  note name none skipped = skipped
  note name (some reason) skipped = insert name reason skipped

  unfoldable pub clean_pods : List Pod → Dict SkipReason → M (Dict SkipReason)
  clean_pods [] skipped = pure skipped
  clean_pods (pod ∷ pods) skipped = do
    reason ← clean_pod pod
    clean_pods pods (note pod.name reason skipped)

unfoldable pub clean : Env → M (Dict SkipReason)
clean env = do
  cluster ← gets (λ w. w.cc)
  pods ←
      list_pods env cluster.namespace
        (with_instance (Label.get instance_label_key cluster.labels) fresh)
  clean_pods env cluster.namespace pods []
