-- ===== src/Meta/Sync.antt =====
-- pkg/manager/meta/meta_manager.go
pub mod Labelled
pub mod Written
pub mod Flows
use elasticell_operator.Base.{
  String, Bool, true, false, ◌&&◌, ◌||◌, not, List, [], ◌∷◌, ◌==◌, if◌then◌else◌, Option, none,
  some, lookup,
}
use elasticell_operator.Api.Pods.{Volume, VolumeSource, claim}
use elasticell_operator.Api.Objects.{Pod, Pvc, Pv}
use elasticell_operator.Api.Cluster.{pd, store}
use elasticell_operator.Api.Status.{member_type}
use elasticell_operator.Label
use elasticell_operator.Label.{
  instance_label_key, component_label_key, pd_label_val, store_label_val, fresh, with_instance,
}
use elasticell_operator.Effects.{
  failure, pvc_name_empty, World, Env, M, pure, fail, gets, ◌>>=◌, ◌>>◌, get_pv, get_pvc, list_pods,
  find,
}
use elasticell_operator.Controls.PodMeta
use elasticell_operator.Controls.ClaimMeta
use elasticell_operator.Controls.Volumes.{relabel_volume}

-- The source's `break` leaves the switch, not the loop: the last volume that fits counts.
unfoldable pub claim_name : List Volume → String → String
claim_name [] name = name
claim_name (v ∷ vs) name = claim_name vs (
    if v.name == member_type pd || v.name == member_type store
    then elim v.source [ claim c ↦ c | _ ↦ name ]
    else name)

-- Only pods of PD and of the stores use volumes.
abbrev pub uses_volume : Pod → Bool
uses_volume pod =
    let component = Label.get component_label_key pod.labels in
    component == pd_label_val || component == store_label_val

-- `UpdateMetaInfo` of the three controls; that of pods leaves the ids in the pod's own labels.
pub record MetaControls : Type 0 where
  pub pod : Pod → M Pod
  pub claim : Pvc → Pod → M (Unit {0})
  pub volume : Pv → M (Unit {0})

abbrev same_pod : Pod → Pod → Bool
same_pod a b = a.name == b.name && a.namespace == b.namespace

abbrev or_given : Pod → Option Pod → Pod
or_given pod none = pod
or_given pod (some p) = p

-- What the pointer to a pod of the cache points to.
abbrev pub current : Pod → List Pod → Pod
current pod pods = or_given pod (find (λ p. same_pod p pod) pods)

-- The controls of the operator.
abbrev pub real : Env → MetaControls
real env = record {
  pod = λ pod. PodMeta.update_meta_info env pod >> gets (λ w. current pod w.pods);
  claim = ClaimMeta.update_meta_info env;
  volume = relabel_volume env;
}

module _ (env : Env) (controls : MetaControls) where
  unfoldable pub resolve_pvc : Pod → M Pvc
  resolve_pvc pod = elim (claim_name pod.volumes "" == "") [
    | true ↦ fail (failure pvc_name_empty)
    | false ↦ get_pvc env pod.namespace (claim_name pod.volumes "")
  ]

  unfoldable pub sync_volume : Pvc → M (Unit {0})
  sync_volume pvc = elim (pvc.volume_name == "") [
    | true ↦ pure tt
    | false ↦ do pv ← get_pv env pvc.volume_name; controls.volume pv
  ]

  unfoldable pub sync_pod : Pod → M (Unit {0})
  sync_pod pod = do
    labelled ← controls.pod pod
    elim (uses_volume labelled) [
      | false ↦ pure tt
      | true ↦ do pvc ← resolve_pvc labelled; controls.claim pvc labelled; sync_volume pvc
    ]

  unfoldable pub sync_pods : List Pod → M (Unit {0})
  sync_pods [] = pure tt
  sync_pods (pod ∷ pods) = do sync_pod pod; sync_pods pods

  unfoldable pub sync : M (Unit {0})
  sync = do
    cluster ← gets (λ w. w.cc)
    pods ←
        list_pods env cluster.namespace
          (with_instance (Label.get instance_label_key cluster.labels) fresh)
    sync_pods pods
