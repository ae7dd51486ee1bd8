-- ===== src/Controls/ClaimMeta/Again.antt =====
-- A claim that was labelled is not labelled again, and one that cannot be is, forever
-- (pvc_control.go).
use elasticell_operator.Base.{◌≡◌, ◌≢◌, ◌⊎◌, String, eq_iff, ◌∷◌, arith}
use elasticell_operator.Api.Objects.{Pod, Pvc}
use elasticell_operator.Label
use elasticell_operator.Label.{
  cluster_id_label_key, member_id_label_key, store_id_label_key, ann_pod_name_key,
}
use elasticell_operator.Effects.{World, Env, request, update_pvc}
use elasticell_operator.Controls.PodMeta.Again.{lookup-set_if_not_empty, after-with_ids}
use elasticell_operator.Controls.ClaimMeta.{made, is_synced, with_meta, update_meta_info}

-- The pod has the id, or the claim has none.
abbrev pub Given : String → Pvc → Pod → Type 0
Given key pvc pod = (Label.get key pod.labels ≢ "") ⊎ (Label.get key pvc.labels ≡ "")

module _ (pvc : Pvc) (pod : Pod) where
  pub cluster_again :
      Given cluster_id_label_key pvc pod
      → Label.get cluster_id_label_key (with_meta pvc pod).labels
        ≡ Label.get cluster_id_label_key pod.labels
  unfolding with_meta
  cluster_again g = ground (
    arith,
    eq_iff (Label.get cluster_id_label_key pod.labels) "",
    after-with_ids (Label.get cluster_id_label_key pod.labels)
        (Label.get member_id_label_key pod.labels) (Label.get store_id_label_key pod.labels)
        cluster_id_label_key pvc.labels,
  )

  pub member_again :
      Given member_id_label_key pvc pod
      → Label.get member_id_label_key (with_meta pvc pod).labels
        ≡ Label.get member_id_label_key pod.labels
  unfolding with_meta
  member_again g = ground (
    arith,
    eq_iff (Label.get member_id_label_key pod.labels) "",
    after-with_ids (Label.get cluster_id_label_key pod.labels)
        (Label.get member_id_label_key pod.labels) (Label.get store_id_label_key pod.labels)
        member_id_label_key pvc.labels,
  )

  pub store_again :
      Given store_id_label_key pvc pod
      → Label.get store_id_label_key (with_meta pvc pod).labels
        ≡ Label.get store_id_label_key pod.labels
  unfolding with_meta
  store_again g = ground (
    arith,
    eq_iff (Label.get store_id_label_key pod.labels) "",
    after-with_ids (Label.get cluster_id_label_key pod.labels)
        (Label.get member_id_label_key pod.labels) (Label.get store_id_label_key pod.labels)
        store_id_label_key pvc.labels,
  )

  name_again :
      pod.name ≢ "" → Label.get ann_pod_name_key (made (with_meta pvc pod).annotations) ≡ pod.name
  unfolding with_meta
  name_again n = ground (
    arith,
    eq_iff pod.name "",
    lookup-set_if_not_empty (made pvc.annotations) ann_pod_name_key pod.name ann_pod_name_key,
  )

-- A claim that was given its pod's ids and name counts as synced, so the next time nothing is
-- asked of the API server, if the pod has every id that the claim has.
pub claim_meta_again :
    (env : Env) (pvc : Pvc) (pod : Pod) (w : World)
    → Given cluster_id_label_key pvc pod
    → Given member_id_label_key pvc pod
    → Given store_id_label_key pvc pod
    → pod.name ≢ ""
    → (update_meta_info env (with_meta pvc pod) pod w).1.calls ≡ w.calls
unfolding update_meta_info is_synced
claim_meta_again env pvc pod w gc gm gs n =
    let new = with_meta pvc pod in
    let c = cluster_again pvc pod gc in
    let m = member_again pvc pod gm in
    let s = store_again pvc pod gs in
    let p = name_again pvc pod n in
    ground (
      arith,
      c,
      m,
      s,
      p,
      eq_iff (Label.get cluster_id_label_key new.labels)
          (Label.get cluster_id_label_key pod.labels),
      eq_iff (Label.get member_id_label_key new.labels) (Label.get member_id_label_key pod.labels),
      eq_iff (Label.get store_id_label_key new.labels) (Label.get store_id_label_key pod.labels),
      eq_iff (Label.get ann_pod_name_key (made new.annotations)) pod.name,
    )

-- A claim with a store's id whose pod has none is never synced: it is sent to the API server with
-- the id that it had at every sync, until the pod gets an id.
pub claim_meta_repeats :
    (env : Env) (pvc : Pvc) (pod : Pod) (w : World)
    → Label.get store_id_label_key pod.labels ≡ ""
    → Label.get store_id_label_key pvc.labels ≢ ""
    → ((update_meta_info env pvc pod w).1.calls ≡ update_pvc (with_meta pvc pod) ∷ w.calls)
      × (Label.get store_id_label_key (with_meta pvc pod).labels
          ≡ Label.get store_id_label_key pvc.labels)
unfolding update_meta_info is_synced with_meta request
claim_meta_repeats env pvc pod w none_given has_id = ground (
  arith,
  eq_iff (Label.get store_id_label_key pod.labels) "",
  eq_iff (Label.get store_id_label_key pvc.labels) (Label.get store_id_label_key pod.labels),
  after-with_ids (Label.get cluster_id_label_key pod.labels)
      (Label.get member_id_label_key pod.labels) (Label.get store_id_label_key pod.labels)
      store_id_label_key pvc.labels,
)
