-- ===== src/Controls/Volumes/Again.antt =====
-- A volume that was labelled is not labelled again (pv_control.go).
use elasticell_operator.Base.{
  String, ◌≡◌, ◌≢◌, ◌⊎◌, some, refl, arith, eq_iff, Dict, lookup, insert, not, if◌then◌else◌, ◌==◌,
  ◌&&◌, true,
}
use elasticell_operator.Base.Maps.{lookup-insert}
use elasticell_operator.Api.Objects.{Pvc, Pv}
use elasticell_operator.Api.Cluster.{CellCluster}
use elasticell_operator.Label
use elasticell_operator.Label.{
  namespace_label_key, component_label_key, name_label_key, managed_by_label_key,
  instance_label_key, cluster_id_label_key, member_id_label_key, store_id_label_key,
  ann_pod_name_key,
}
use elasticell_operator.Effects.{Result, ok}
use elasticell_operator.Controls.PodMeta.Again.{lookup-set_if_not_empty, after-with_ids}
use elasticell_operator.Controls.Client.{Desk, Client}
use elasticell_operator.Controls.Volumes.{
  with_claim_labels, pod_of, is_synced, with_meta, update_meta_info,
}

after-with_claim_labels :
    (ns j : String) (claim labels : Dict String)
    → lookup j (with_claim_labels ns claim labels) ≡ (
        if instance_label_key == j
        then some (Label.get instance_label_key claim)
        else if managed_by_label_key == j
        then some (Label.get managed_by_label_key claim)
        else if name_label_key == j
        then some (Label.get name_label_key claim)
        else if component_label_key == j
        then some (Label.get component_label_key claim)
        else if namespace_label_key == j
        then some ns
        else lookup j labels)
after-with_claim_labels ns j claim labels =
    let one = insert namespace_label_key ns labels in
    let two = insert component_label_key (Label.get component_label_key claim) one in
    let three = insert name_label_key (Label.get name_label_key claim) two in
    let four = insert managed_by_label_key (Label.get managed_by_label_key claim) three in
    ground (
      arith,
      lookup-insert namespace_label_key j ns labels,
      lookup-insert component_label_key j (Label.get component_label_key claim) one,
      lookup-insert name_label_key j (Label.get name_label_key claim) two,
      lookup-insert managed_by_label_key j (Label.get managed_by_label_key claim) three,
      lookup-insert instance_label_key j (Label.get instance_label_key claim) four,
    )

module _ (ns : String) (pvc : Pvc) (pv : Pv) where
  -- The claim has the id, or the volume has none.
  abbrev pub Given : String → Type 0
  Given key = (Label.get key pvc.labels ≢ "") ⊎ (Label.get key pv.labels ≡ "")

  abbrev labels : Dict String
  labels = with_claim_labels ns pvc.labels pv.labels

  -- What a label of the labelled volume is.
  after_meta :
      (key : String)
      → lookup key (with_meta ns pvc pv).labels ≡ (
          if not (Label.get store_id_label_key pvc.labels == "") && store_id_label_key == key
          then some (Label.get store_id_label_key pvc.labels)
          else if not (Label.get member_id_label_key pvc.labels == "") && member_id_label_key == key
          then some (Label.get member_id_label_key pvc.labels)
          else if not (Label.get cluster_id_label_key pvc.labels == "")
              && cluster_id_label_key == key
          then some (Label.get cluster_id_label_key pvc.labels)
          else lookup key labels)
  unfolding with_meta
  after_meta key =
      after-with_ids (Label.get cluster_id_label_key pvc.labels)
        (Label.get member_id_label_key pvc.labels) (Label.get store_id_label_key pvc.labels) key
        labels

  abbrev Agree : String → Type 0
  Agree key = Label.get key (with_meta ns pvc pv).labels ≡ Label.get key pvc.labels

  namespace_same : Label.get namespace_label_key (with_meta ns pvc pv).labels ≡ ns
  namespace_same = ground (
    arith,
    after_meta namespace_label_key,
    after-with_claim_labels ns namespace_label_key pvc.labels pv.labels,
  )

  component_same : Agree component_label_key
  component_same = ground (
    arith,
    after_meta component_label_key,
    after-with_claim_labels ns component_label_key pvc.labels pv.labels,
  )

  name_same : Agree name_label_key
  name_same = ground (
    arith,
    after_meta name_label_key,
    after-with_claim_labels ns name_label_key pvc.labels pv.labels,
  )

  managed_by_same : Agree managed_by_label_key
  managed_by_same = ground (
    arith,
    after_meta managed_by_label_key,
    after-with_claim_labels ns managed_by_label_key pvc.labels pv.labels,
  )

  instance_same : Agree instance_label_key
  instance_same = ground (
    arith,
    after_meta instance_label_key,
    after-with_claim_labels ns instance_label_key pvc.labels pv.labels,
  )

  pub cluster_id_same : Given cluster_id_label_key → Agree cluster_id_label_key
  cluster_id_same g = ground (
    arith,
    eq_iff (Label.get cluster_id_label_key pvc.labels) "",
    after_meta cluster_id_label_key,
    after-with_claim_labels ns cluster_id_label_key pvc.labels pv.labels,
  )

  pub member_id_same : Given member_id_label_key → Agree member_id_label_key
  member_id_same g = ground (
    arith,
    eq_iff (Label.get member_id_label_key pvc.labels) "",
    after_meta member_id_label_key,
    after-with_claim_labels ns member_id_label_key pvc.labels pv.labels,
  )

  pub store_id_same : Given store_id_label_key → Agree store_id_label_key
  store_id_same g = ground (
    arith,
    eq_iff (Label.get store_id_label_key pvc.labels) "",
    after_meta store_id_label_key,
    after-with_claim_labels ns store_id_label_key pvc.labels pv.labels,
  )

  pod_same :
      (pod_of pvc ≢ "") ⊎ (Label.get ann_pod_name_key pv.annotations ≡ "")
      → Label.get ann_pod_name_key (with_meta ns pvc pv).annotations ≡ pod_of pvc
  unfolding with_meta
  pod_same g = ground (
    arith,
    eq_iff (pod_of pvc) "",
    lookup-set_if_not_empty pv.annotations ann_pod_name_key (pod_of pvc) ann_pod_name_key,
  )

  keeps_ref : (with_meta ns pvc pv).claim_ref ≡ pv.claim_ref
  unfolding with_meta
  keeps_ref = refl

  is_synced-with_meta :
      Given cluster_id_label_key
      → Given member_id_label_key
      → Given store_id_label_key
      → (pod_of pvc ≢ "") ⊎ (Label.get ann_pod_name_key pv.annotations ≡ "")
      → is_synced ns pvc (with_meta ns pvc pv) ≡ true
  unfolding is_synced
  is_synced-with_meta gc gm gs gp =
      let new = with_meta ns pvc pv in
      rw
        (
          (eq_iff (Label.get namespace_label_key new.labels) ns).1 namespace_same,
          (eq_iff (Label.get component_label_key new.labels) _).1 component_same,
          (eq_iff (Label.get name_label_key new.labels) _).1 name_same,
          (eq_iff (Label.get managed_by_label_key new.labels) _).1 managed_by_same,
          (eq_iff (Label.get instance_label_key new.labels) _).1 instance_same,
          (eq_iff (Label.get cluster_id_label_key new.labels) _).1 (cluster_id_same gc),
          (eq_iff (Label.get member_id_label_key new.labels) _).1 (member_id_same gm),
          (eq_iff (Label.get store_id_label_key new.labels) _).1 (store_id_same gs),
          (eq_iff (Label.get ann_pod_name_key new.annotations) _).1 (pod_same gp),
        )
        refl

-- A volume that was labelled from its claim counts as labelled: the next time nothing is asked of
-- the API server, if the claim has every id and the pod's name that the volume has.
pub volume_meta_again :
    (c : Client Pv) (get_pvc : String → String → Result Pvc) (cluster : CellCluster) (pvc : Pvc)
    (pv : Pv) (name : String) (d : Desk Pv)
    → pv.claim_ref ≡ some name
    → get_pvc cluster.namespace name ≡ ok pvc
    → Given cluster.namespace pvc pv cluster_id_label_key
    → Given cluster.namespace pvc pv member_id_label_key
    → Given cluster.namespace pvc pv store_id_label_key
    → (pod_of pvc ≢ "") ⊎ (Label.get ann_pod_name_key pv.annotations ≡ "")
    → let labelled = with_meta cluster.namespace pvc pv in
      update_meta_info c get_pvc cluster labelled d ≡ (ok labelled, d)
unfolding update_meta_info
volume_meta_again c get_pvc cluster pvc pv name d ref found gc gm gs gp = ground (
  arith,
  keeps_ref cluster.namespace pvc pv,
  is_synced-with_meta cluster.namespace pvc pv gc gm gs gp,
)
