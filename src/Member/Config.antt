-- ===== src/Member/Config.antt =====
-- pkg/manager/member/utils.go: the last applied configuration, kept as an annotation, and the
-- tests that compare by it.
use elasticell_operator.Base.{
  String, Bool, true, false, ◌&&◌, ◌||◌, not, Option, none, some, [], Dict, ℤ, lookup, insert, ltb,
  eqb_ℤ, ◌==◌, any, if◌then◌else◌,
}
use elasticell_operator.Api.Pods.{PodSpec}
use elasticell_operator.Api.Objects.{Pod, ContainerStatus, Service, StatefulSet, SetSpec, Template}
use elasticell_operator.Effects.{Error, failure, no_applied_config, Result, ok, err, Env}

abbrev pub last_applied_config_annotation : String
last_applied_config_annotation = "deepfabric.com/last-applied-configuration"

abbrev pub controller_revision_hash_label_key : String
controller_revision_hash_label_key = "controller-revision-hash"

-- Reading a nil map finds nothing; writing makes the map first.
abbrev pub annotation : String → Option (Dict String) → Option String
annotation k none = none
annotation k (some m) = lookup k m

abbrev pub annotate : String → String → Option (Dict String) → Option (Dict String)
annotate k v none = some (insert k v [])
annotate k v (some m) = some (insert k v m)

unfoldable pub stateful_set_is_upgrading : StatefulSet → Bool
stateful_set_is_upgrading set = elim set.status.observed_generation [
  | none ↦ false
  | some observed ↦
      if not (set.status.current_revision == set.status.update_revision)
      then true
      else if ltb observed set.generation && eqb_ℤ set.spec.replicas set.status.replicas
      then true
      else false
]

module _ {A B : Type 0} where
  abbrev pub and_then : Result A → (A → Result B) → Result B
  and_then (ok a) f = f a
  and_then (err e) f = err e

abbrev pub or_fail : {A : Type 0} → Option A → Error → Result A
or_fail none e = err e
or_fail (some a) e = ok a

abbrev pub annotate_template : String → Template → Template
annotate_template text t = record t {
  annotations = annotate last_applied_config_annotation text t.annotations;
}

-- The first half of `SetLastAppliedConfigAnnotation`, and its second half.
abbrev pub with_spec_config : String → StatefulSet → StatefulSet
with_spec_config text set = record set {
  annotations = annotate last_applied_config_annotation text set.annotations;
}

abbrev pub with_template_config : String → StatefulSet → StatefulSet
with_template_config text set = record set {
  spec = record (set.spec) { template = annotate_template text set.spec.template };
}

module _ (env : Env) where
  unfoldable pub set_last_applied_config : StatefulSet → Result StatefulSet
  set_last_applied_config set = and_then (env.encode_set_spec set.spec) λ set_apply.
      and_then (env.encode_pod_spec set.spec.template.spec)
        λ template_apply. ok (with_template_config template_apply (with_spec_config set_apply set))

  unfoldable pub get_last_applied_config : StatefulSet → Result (SetSpec × PodSpec)
  get_last_applied_config set =
      and_then
        (or_fail (annotation last_applied_config_annotation set.annotations)
          (failure no_applied_config))
        λ spec_text. and_then (env.decode_set_spec spec_text) λ spec.
          and_then
            (or_fail (annotation last_applied_config_annotation set.spec.template.annotations)
              (failure no_applied_config))
            λ pod_text. and_then (env.decode_pod_spec pod_text) λ pod_spec. ok (spec, pod_spec)

  abbrev set_matches : Result SetSpec → SetSpec → Bool
  set_matches (err e) new = false
  set_matches (ok old) new =
      env.eq_replicas old.replicas new.replicas
      && env.eq_template old.template new.template
      && env.eq_strategy old.update_strategy new.update_strategy

  unfoldable pub stateful_set_equal : StatefulSet → StatefulSet → Bool
  stateful_set_equal new old = elim (annotation last_applied_config_annotation old.annotations) [
    | none ↦ false
    | some text ↦ set_matches (env.decode_set_spec text) new.spec
  ]

  abbrev template_matches : Result PodSpec → PodSpec → Bool
  template_matches (err e) new = false
  template_matches (ok old) new = env.eq_pod_spec old new

  unfoldable pub template_equal : Template → Template → Bool
  template_equal new old = elim (annotation last_applied_config_annotation old.annotations) [
    | none ↦ false
    | some text ↦ template_matches (env.decode_pod_spec text) new.spec
  ]

  unfoldable pub set_service_last_applied_config : Service → Result Service
  set_service_last_applied_config svc = and_then (env.encode_service_spec svc.spec) λ text.
      ok (record svc { annotations = annotate last_applied_config_annotation text svc.annotations })

  unfoldable pub service_equal : Service → Service → Result Bool
  service_equal new old = elim (annotation last_applied_config_annotation old.annotations) [
    | none ↦ ok false
    | some text ↦
        and_then (env.decode_service_spec text)
          λ old_spec. ok (env.eq_service_spec old_spec new.spec)
  ]

unfoldable pub set_upgrade_partition : StatefulSet → ℤ → StatefulSet
set_upgrade_partition set ordinal = record set {
  spec = record (set.spec) {
    update_strategy = record (set.spec.update_strategy) {
      rolling_update = some (record { partition = some ordinal });
    };
  };
}

abbrev pull_failed : ContainerStatus → Bool
pull_failed c = elim c.waiting [
  | none ↦ false
  | some reason ↦ not (reason == "") && (reason == "ImagePullBackOff" || reason == "ErrImagePull")
]

unfoldable pub image_pull_failed : Pod → Bool
image_pull_failed pod = any pull_failed pod.container_statuses

-- The partition that a StatefulSet's update strategy holds, if both pointers are set.
abbrev pub partition_of : StatefulSet → Option ℤ
partition_of set = elim set.spec.update_strategy.rolling_update [
  | none ↦ none
  | some r ↦ r.partition
]
