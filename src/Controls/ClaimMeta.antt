-- ===== src/Controls/ClaimMeta.antt =====
-- `UpdateMetaInfo` of pkg/controller/pvc_control.go.
pub mod Again
use elasticell_operator.Base.{
  String, Bool, true, false, ◌&&◌, Option, none, some, List, [], Dict, ◌==◌, if◌then◌else◌,
}
use elasticell_operator.Api.Objects.{Pod, Pvc}
use elasticell_operator.Label
use elasticell_operator.Label.{
  cluster_id_label_key, member_id_label_key, store_id_label_key, ann_pod_name_key,
}
use elasticell_operator.Util.Helpers.{set_if_not_empty}
use elasticell_operator.Effects.{update_pvc, World, Env, M, modify, ◌>>=◌, ◌>>◌, request}
use elasticell_operator.Member.StoreScaler.{edit_pvcs}
use elasticell_operator.Controls.PodMeta.{with_ids}

abbrev pub made : Option (Dict String) → Dict String
made none = []
made (some m) = m

-- The claim names the pod and has the pod's ids.
unfoldable pub is_synced : Pvc → Pod → Bool
is_synced pvc pod =
    Label.get cluster_id_label_key pvc.labels == Label.get cluster_id_label_key pod.labels
    && Label.get member_id_label_key pvc.labels == Label.get member_id_label_key pod.labels
    && Label.get store_id_label_key pvc.labels == Label.get store_id_label_key pod.labels
    && Label.get ann_pod_name_key (made pvc.annotations) == pod.name

unfoldable pub with_meta : Pvc → Pod → Pvc
with_meta pvc pod = record pvc {
  labels =
      with_ids (Label.get cluster_id_label_key pod.labels)
        (Label.get member_id_label_key pod.labels) (Label.get store_id_label_key pod.labels)
        pvc.labels;
  annotations = some (set_if_not_empty (made pvc.annotations) ann_pod_name_key pod.name);
}

-- The claim is the cached object, whose nil maps are made first.
unfoldable pub update_meta_info : Env → Pvc → Pod → M (Unit {0})
update_meta_info env pvc pod = elim (is_synced pvc pod) [
  | true ↦ modify (λ w. record w {
    pvcs = edit_pvcs pvc (record pvc { annotations = some (made pvc.annotations) }) w.pvcs;
  })
  | false ↦ do
    modify (λ w. record w { pvcs = edit_pvcs pvc (with_meta pvc pod) w.pvcs })
    request env (update_pvc (with_meta pvc pod))
]
