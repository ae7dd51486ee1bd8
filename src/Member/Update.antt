-- ===== src/Member/Update.antt =====
-- The last step of the three `sync…StatefulSetForCellCluster` functions: create the StatefulSet, or
-- write the new one into a copy of the old one and ask for the update. The copy is shallow, and
-- the old one is the lister's cached object: the write to its replicas goes through the pointer
-- that both share, and so does the write to the annotations, unless that map was nil.
pub mod Lost
pub mod Asked
use elasticell_operator.Base.{
  String, Bool, true, false, ◌&&◌, Option, none, some, List, [], ◌∷◌, Dict, ℤ, ◌==◌, if◌then◌else◌,
}
use elasticell_operator.Api.Objects.{StatefulSet, SetSpec, Pod}
use elasticell_operator.Effects.{
  create_set, update_set, World, Env, M, pure, fail, lift, gets, modify, ◌>>=◌, ◌>>◌, request,
}
use elasticell_operator.Member.Config.{
  set_last_applied_config, stateful_set_equal, with_spec_config, with_template_config,
}

abbrev pub cache_set : StatefulSet → List StatefulSet → List StatefulSet
cache_set set [] = []
cache_set set (s ∷ ss) =
    if s.name == set.name && s.namespace == set.namespace then set ∷ ss else s ∷ cache_set set ss

abbrev pub write_cached : StatefulSet → World → World
write_cached set w = record w { sets = cache_set set w.sets }

-- `set.Spec.Template`, `*set.Spec.Replicas` and `set.Spec.UpdateStrategy` from the new StatefulSet.
abbrev pub merged : StatefulSet → StatefulSet → StatefulSet
merged new old = record old {
  spec = record (old.spec) {
    replicas = new.spec.replicas;
    template = new.spec.template;
    update_strategy = new.spec.update_strategy;
  };
}

abbrev pub with_replicas : ℤ → StatefulSet → StatefulSet
with_replicas n set = record set { spec = record (set.spec) { replicas = n } }

-- What a write to the copy's annotations does to the original's.
abbrev pub shared : Option (Dict String) → Option (Dict String) → Option (Dict String)
shared none written = none
shared (some m) written = written

abbrev pub with_annotations : Option (Dict String) → StatefulSet → StatefulSet
with_annotations a set = record set { annotations = a }

module _ (env : Env) where
  unfoldable pub create_stateful_set : StatefulSet → M (Unit {0})
  create_stateful_set new = do
    applied ← lift (set_last_applied_config env new)
    request env (create_set applied)

  unfoldable pub update_stateful_set : StatefulSet → M (Unit {0})
  update_stateful_set old = do
    new ← gets (λ w. w.draft)
    let cached = with_replicas new.spec.replicas old
    modify (write_cached cached)
    text ← lift (env.encode_set_spec (merged new old).spec)
    let set = with_spec_config text (merged new old)
    modify (write_cached (with_annotations (shared old.annotations set.annotations) cached))
    template_text ← lift (env.encode_pod_spec set.spec.template.spec)
    request env (update_set (with_template_config template_text set))

  unfoldable pub update_if_changed : StatefulSet → M (Unit {0})
  update_if_changed old = do
    new ← gets (λ w. w.draft)
    elim (stateful_set_equal env new old) [ true ↦ pure tt | false ↦ update_stateful_set old ]
