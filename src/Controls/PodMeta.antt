-- ===== src/Controls/PodMeta.antt =====
-- `UpdateMetaInfo` of pkg/controller/pod_control.go.
pub mod Again
pub mod Addresses
use elasticell_operator.Base.{
  ℕ, String, Bool, true, false, ◌&&◌, not, Option, none, some, List, [], ◌∷◌, map, Dict, lookup,
  decimal, ◌==◌, is_some, if◌then◌else◌,
}
use elasticell_operator.Api.Objects.{Pod}
use elasticell_operator.Label
use elasticell_operator.Label.{
  cluster_id_label_key, member_id_label_key, store_id_label_key, component_label_key,
  instance_label_key, pd_label_val, store_label_val,
}
use elasticell_operator.Util.Helpers.{set_if_not_empty}
use elasticell_operator.Util.Texts.{split}
use elasticell_operator.Effects.{
  failure, labels_empty, no_instance_label, Result, ok, err, StoreInfo, update_pod, World, Env, M,
  pure, fail, lift, modify, ◌>>=◌, ◌>>◌, request,
}
use elasticell_operator.Member.Config.{and_then}

abbrev head_of : List String → String
head_of [] = ""
head_of (s ∷ ss) = s

-- The part of a store's address before the port.
abbrev pub host : StoreInfo → String
host info = head_of (split b':' info.meta.address)

-- The id of the first member of the pod's name, or else the old one.
unfoldable pub member_id_of : String → String → List (String × ℕ) → String
member_id_of pod_name old [] = old
member_id_of pod_name old ((name, id) ∷ members) =
    if name == pod_name then decimal id else member_id_of pod_name old members

-- The id of the first store whose host is the pod's name, or else the old one.
unfoldable pub store_id_of : String → String → List StoreInfo → String
store_id_of pod_name old [] = old
store_id_of pod_name old (info ∷ infos) =
    if host info == pod_name then decimal info.meta.id else store_id_of pod_name old infos

abbrev map_ok : {A B : Type 0} → (A → B) → Result A → Result B
map_ok f (ok a) = ok (f a)
map_ok f (err e) = err e

abbrev pub relabel : Pod → Dict String → List Pod → List Pod
relabel pod labels [] = []
relabel pod labels (p ∷ ps) =
    if p.name == pod.name && p.namespace == pod.namespace
    then record p { labels = labels } ∷ ps
    else p ∷ relabel pod labels ps

abbrev pub with_ids : String → String → String → Dict String → Dict String
with_ids cluster_id member_id store_id labels =
    set_if_not_empty
      (set_if_not_empty (set_if_not_empty labels cluster_id_label_key cluster_id)
        member_id_label_key member_id)
      store_id_label_key store_id

module _ (env : Env) where
  -- The ids that the pod should be labelled with, asked of PD where the pod has none.
  unfoldable pub wanted_cluster_id : Pod → Result String
  wanted_cluster_id pod =
      if Label.get cluster_id_label_key pod.labels == ""
      then env.get_cluster
      else ok (Label.get cluster_id_label_key pod.labels)

  unfoldable pub wanted_member_id : Pod → Result String
  wanted_member_id pod =
      let old = Label.get member_id_label_key pod.labels in
      if Label.get component_label_key pod.labels == pd_label_val && old == ""
      then map_ok (member_id_of pod.name old) env.get_members
      else ok old

  unfoldable pub wanted_store_id : Pod → Result String
  wanted_store_id pod =
      let old = Label.get store_id_label_key pod.labels in
      if Label.get component_label_key pod.labels == store_label_val && old == ""
      then map_ok (store_id_of pod.name old) env.get_stores
      else ok old

  -- The labels are the cached pod's own map.
  unfoldable pub write_ids : Pod → String → String → String → M (Unit {0})
  write_ids pod cluster_id member_id store_id =
      if Label.get cluster_id_label_key pod.labels == cluster_id
        && Label.get member_id_label_key pod.labels == member_id
        && Label.get store_id_label_key pod.labels == store_id
      then pure tt
      else do
        let labels = with_ids cluster_id member_id store_id pod.labels
        modify (λ w. record w { pods = relabel pod labels w.pods })
        request env (update_pod (record pod { labels = labels }))

  abbrev pub write_wanted : Pod → M (Unit {0})
  write_wanted pod = do
    cluster_id ← lift (wanted_cluster_id pod)
    member_id ← lift (wanted_member_id pod)
    store_id ← lift (wanted_store_id pod)
    write_ids pod cluster_id member_id store_id

  -- An empty map of labels stands for Go's nil map.
  unfoldable pub update_meta_info : Pod → M (Unit {0})
  update_meta_info pod = elim (is_some (lookup instance_label_key pod.labels)) [
    | true ↦ write_wanted pod
    | false ↦ elim pod.labels [
      | [] ↦ fail (failure labels_empty)
      | p ∷ labels ↦ fail (failure no_instance_label)
    ]
  ]
