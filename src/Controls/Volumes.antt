-- ===== src/Controls/Volumes.antt =====
-- pkg/controller/pv_control.go: the reclaim policy of a volume, and its labels and annotations.
pub mod Again
use elasticell_operator.Base.{
  String, Bool, true, false, ◌&&◌, Option, none, some, List, [], ◌∷◌, Dict, insert, ◌==◌,
  if◌then◌else◌,
}
use elasticell_operator.Api.Objects.{Pvc, Pv}
use elasticell_operator.Api.Cluster.{CellCluster}
use elasticell_operator.Label
use elasticell_operator.Label.{
  namespace_label_key, component_label_key, name_label_key, managed_by_label_key,
  instance_label_key, cluster_id_label_key, member_id_label_key, store_id_label_key,
  ann_pod_name_key,
}
use elasticell_operator.Util.Helpers.{set_if_not_empty}
use elasticell_operator.Effects.{
  Error, not_found, Result, ok, err, update_pv_meta, World, Env, M, pvc_at, request,
}
use elasticell_operator.Controls.PodMeta.{with_ids}
use elasticell_operator.Controls.ClaimMeta.{made}
use elasticell_operator.Controls.Retry.{Retry, default_backoff}
use elasticell_operator.Controls.Client.{
  Request, patch, Event, Desk, Client, patching, subject, event_of, send, outcome, record_event,
  update_with,
}

-- The labels that a volume takes from its claim, whether or not they are empty.
abbrev pub with_claim_labels : String → Dict String → Dict String → Dict String
with_claim_labels ns claim labels = insert instance_label_key (Label.get instance_label_key claim) (
    insert managed_by_label_key (Label.get managed_by_label_key claim) (
      insert name_label_key (Label.get name_label_key claim) (
        insert component_label_key (Label.get component_label_key claim)
          (insert namespace_label_key ns labels))))

abbrev pub ids_of : Dict String → Dict String → Dict String
ids_of claim labels =
    with_ids (Label.get cluster_id_label_key claim) (Label.get member_id_label_key claim)
      (Label.get store_id_label_key claim) labels

abbrev pub pod_of : Pvc → String
pod_of pvc = Label.get ann_pod_name_key (made pvc.annotations)

abbrev pub agrees : String → Dict String → Dict String → Bool
agrees key labels claim = Label.get key labels == Label.get key claim

unfoldable pub is_synced : String → Pvc → Pv → Bool
is_synced ns pvc pv =
    Label.get namespace_label_key pv.labels == ns
    && agrees component_label_key pv.labels pvc.labels
    && agrees name_label_key pv.labels pvc.labels
    && agrees managed_by_label_key pv.labels pvc.labels
    && agrees instance_label_key pv.labels pvc.labels
    && agrees cluster_id_label_key pv.labels pvc.labels
    && agrees member_id_label_key pv.labels pvc.labels
    && agrees store_id_label_key pv.labels pvc.labels
    && Label.get ann_pod_name_key pv.annotations == pod_of pvc

unfoldable pub with_meta : String → Pvc → Pv → Pv
with_meta ns pvc pv = record pv {
  labels = ids_of pvc.labels (with_claim_labels ns pvc.labels pv.labels);
  annotations = set_if_not_empty pv.annotations ann_pod_name_key (pod_of pvc);
}

-- A claim that does not exist is skipped; another fault of the lister is an error.
abbrev pub unless_missing : Pv → Desk Pv → Error → Result Pv × Desk Pv
unless_missing pv d not_found = (ok pv, d)
unless_missing pv d e = (err e, d)

module _ (c : Client Pv) (get_pvc : String → String → Result Pvc) (cluster : CellCluster) where
  abbrev pub pv_subject : Pv → String
  pv_subject pv = subject "PV" pv.name cluster.name

  unfoldable pub patch_pv_reclaim_policy : Pv → String → Desk Pv → Result (Unit {0}) × Desk Pv
  patch_pv_reclaim_policy pv policy d =
      record_event c patching (pv_subject pv)
        (outcome c (c.retry.on_conflict default_backoff (send c (patch pv.name policy)) d))

  -- The update sends the labelled object, and keeps its labels and annotations after a conflict.
  unfoldable pub send_meta : Pv → Desk Pv → Result Pv × Desk Pv
  send_meta pv d =
      update_with c default_backoff pv.name
        (λ u. record u { labels = pv.labels; annotations = pv.annotations }) (λ _. pv_subject pv) pv
        d

  abbrev pub from_claim : Pv → Desk Pv → Result Pvc → Result Pv × Desk Pv
  from_claim pv d (err e) = unless_missing pv d e
  from_claim pv d (ok pvc) = elim (is_synced cluster.namespace pvc pv) [
    | true ↦ (ok pv, d)
    | false ↦ send_meta (with_meta cluster.namespace pvc pv) d
  ]

  abbrev pub from_ref : Pv → Desk Pv → Option String → Result Pv × Desk Pv
  from_ref pv d none = (ok pv, d)
  from_ref pv d (some name) = from_claim pv d (get_pvc cluster.namespace name)

  unfoldable pub update_meta_info : Pv → Desk Pv → Result Pv × Desk Pv
  update_meta_info pv d = from_ref pv d pv.claim_ref

-- `UpdateMetaInfo` in a sync: the volume is the cached object, and the update with its retries is
-- one request.
abbrev pub edit_pvs : Pv → Pv → List Pv → List Pv
edit_pvs old new [] = []
edit_pvs old new (v ∷ vs) = if v.name == old.name then new ∷ vs else v ∷ edit_pvs old new vs

module _ (env : Env) where
  abbrev relabel_from : Pv → Result Pvc → M (Unit {0})
  relabel_from pv (err not_found) w = (ok tt, w)
  relabel_from pv (err e) w = (err e, w)
  relabel_from pv (ok pvc) w = elim (is_synced w.cc.namespace pvc pv) [
    | true ↦ (ok tt, w)
    | false ↦
        request env (update_pv_meta (with_meta w.cc.namespace pvc pv))
          (record w { pvs = edit_pvs pv (with_meta w.cc.namespace pvc pv) w.pvs })
  ]

  abbrev relabel_by_ref : Pv → Option String → M (Unit {0})
  relabel_by_ref pv none w = (ok tt, w)
  relabel_by_ref pv (some name) w = relabel_from pv (pvc_at env w.cc.namespace name w.pvcs) w

  unfoldable pub relabel_volume : Pv → M (Unit {0})
  relabel_volume pv w = relabel_by_ref pv pv.claim_ref w
