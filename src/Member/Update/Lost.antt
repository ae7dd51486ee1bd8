-- ===== src/Member/Update/Lost.antt =====
-- An update that failed is not tried again (the last step of the StatefulSet syncs).
use elasticell_operator.Base.{
  String, true, false, ◌≡◌, refl, none, some, List, Dict, ◌∷◌, arith, lookup, insert, eq_iff,
  Option, [],
}
use elasticell_operator.Base.Maps.{lookup-insert}
use elasticell_operator.Api.Objects.{StatefulSet, SetSpec}
use elasticell_operator.Effects.{ok, err, Error, World, Env, request, set_at, update_set}
use elasticell_operator.Member.Config.{
  stateful_set_equal, annotation, last_applied_config_annotation, annotate, with_spec_config,
  with_template_config,
}
use elasticell_operator.Member.Update.{
  merged, with_replicas, with_annotations, cache_set, update_stateful_set, update_if_changed,
}

-- The three comparisons of `statefulSetEqual` hold between a spec and itself.
abbrev pub EqualToItself : Env → SetSpec → Type 0
EqualToItself env s =
    (env.eq_replicas s.replicas s.replicas ≡ true)
    × (env.eq_template s.template s.template ≡ true)
    × (env.eq_strategy s.update_strategy s.update_strategy ≡ true)

lookup-insert_self : (k v : String) (m : Dict String) → lookup k (insert k v m) ≡ some v
lookup-insert_self k v m = ground (arith, lookup-insert k k v m, eq_iff k k)

-- A set annotated with a text that decodes to the merged spec counts as equal to the new set.
annotated-equal :
    (env : Env) (new old set : StatefulSet) (text : String)
    → annotation last_applied_config_annotation set.annotations ≡ some text
    → env.decode_set_spec text ≡ ok (merged new old).spec
    → EqualToItself env new.spec
    → stateful_set_equal env new set ≡ true
unfolding stateful_set_equal
annotated-equal env new old set text a d e = ground arith

pub annotation-annotate :
    (k v : String) (a : Option (Dict String)) → annotation k (annotate k v a) ≡ some v
annotation-annotate k v none = lookup-insert_self k v []
annotation-annotate k v (some m) = lookup-insert_self k v m

-- After a successful update the stored StatefulSet counts as equal to the one that was asked for,
-- if the encoded spec decodes to itself and the comparisons hold between it and itself.
pub update_converges :
    (env : Env) (new old : StatefulSet) (text template_text : String)
    → env.decode_set_spec text ≡ ok (merged new old).spec
    → EqualToItself env new.spec
    → stateful_set_equal env new
        (with_template_config template_text (with_spec_config text (merged new old)))
      ≡ true
update_converges env new old text template_text d e =
    annotated-equal env new old _ text
      (annotation-annotate last_applied_config_annotation text old.annotations) d e

set_at-cache_set :
    (env : Env) (ns name : String) (old new : StatefulSet) (sets : List StatefulSet)
    → set_at env ns name sets ≡ ok old
    → new.name ≡ name
    → new.namespace ≡ ns
    → set_at env ns name (cache_set new sets) ≡ ok new
unfolding set_at
set_at-cache_set env ns name old new [] h n m = ground arith
set_at-cache_set env ns name old new (s ∷ sets) h n m = ground (
  arith,
  eq_iff new.name name,
  eq_iff new.namespace ns,
  set_at-cache_set env ns name old new sets,
)

-- What the cached StatefulSet becomes, whether or not the update succeeds.
abbrev pub rewritten : StatefulSet → StatefulSet → String → StatefulSet
rewritten new old text =
    with_annotations (annotate last_applied_config_annotation text old.annotations)
      (with_replicas new.spec.replicas old)

-- If the API server refuses the update of a StatefulSet that has annotations, the error is
-- returned, but the cached StatefulSet already carries the new configuration. When any later sync
-- comes to its last step with the cached StatefulSets not refreshed and the same StatefulSet wanted,
-- it finds the cached one changed, asks for nothing and reports success. (The encoded spec decodes
-- to itself and equals itself.)
pub update_lost :
    (env : Env) (old : StatefulSet) (w u : World) (m : Dict String) (text template_text : String)
    (e : Error)
    → set_at env old.namespace old.name w.sets ≡ ok old
    → old.annotations ≡ some m
    → stateful_set_equal env w.draft old ≡ false
    → env.encode_set_spec (merged w.draft old).spec ≡ ok text
    → env.encode_pod_spec w.draft.spec.template.spec ≡ ok template_text
    → env.decode_set_spec text ≡ ok (merged w.draft old).spec
    → EqualToItself env w.draft.spec
    → env.reply w.calls (
        update_set
          (with_template_config template_text (with_spec_config text (merged w.draft old))))
      ≡ some e
    → u.sets ≡ (update_if_changed env old w).1.sets
    → u.draft ≡ w.draft
    → let cached = rewritten w.draft old text in
      ((update_if_changed env old w).0 ≡ err e)
      × (set_at env old.namespace old.name u.sets ≡ ok cached)
      × (update_if_changed env cached u ≡ (ok tt, u))
unfolding update_if_changed update_stateful_set request
update_lost env old w u m text template_text e c a ne enc enc_pod dec eq refused kept wanted =
    let first = with_replicas w.draft.spec.replicas old in
    let cached = rewritten w.draft old text in
    let stored =
      set_at-cache_set env old.namespace old.name first cached (cache_set first w.sets)
        (set_at-cache_set env old.namespace old.name old first w.sets c refl refl) refl refl in
    let same =
      annotated-equal env w.draft old cached text
        (annotation-annotate last_applied_config_annotation text old.annotations) dec eq in
    (ground arith, ground (arith, stored, kept), ground (arith, same, wanted))
