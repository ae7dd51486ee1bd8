-- ===== src/Controls/PodMeta/Again.antt =====
-- A pod that was labelled is not labelled again (pod_control.go).
use elasticell_operator.Base.{
  ◌≡◌, true, ◌&&◌, not, some, String, Dict, is_some, ◌==◌, eq_iff, lookup, arith, if◌then◌else◌,
}
use elasticell_operator.Api.Objects.{Pod}
use elasticell_operator.Base.Maps.{lookup-insert}
use elasticell_operator.Label
use elasticell_operator.Label.{
  cluster_id_label_key, member_id_label_key, store_id_label_key, component_label_key,
  instance_label_key,
}
use elasticell_operator.Util.Helpers.{set_if_not_empty}
use elasticell_operator.Effects.{ok, World, Env}
use elasticell_operator.Controls.PodMeta.{
  with_ids, wanted_cluster_id, wanted_member_id, wanted_store_id, write_ids, update_meta_info,
}

pub lookup-set_if_not_empty :
    (m : Dict String) (k v j : String)
    → lookup j (set_if_not_empty m k v)
      ≡ (if v == "" then lookup j m else if k == j then some v else lookup j m)
unfolding set_if_not_empty
lookup-set_if_not_empty m k v j = ground (arith, lookup-insert k j v m)

-- The labels that the ids are read from afterwards.
pub after-with_ids :
    (c m s j : String) (labels : Dict String)
    → lookup j (with_ids c m s labels) ≡ (
        if not (s == "") && store_id_label_key == j
        then some s
        else if not (m == "") && member_id_label_key == j
        then some m
        else if not (c == "") && cluster_id_label_key == j
        then some c
        else lookup j labels)
after-with_ids c m s j labels =
    let one = set_if_not_empty labels cluster_id_label_key c in
    let two = set_if_not_empty one member_id_label_key m in
    ground (
      arith,
      lookup-set_if_not_empty labels cluster_id_label_key c j,
      lookup-set_if_not_empty one member_id_label_key m j,
      lookup-set_if_not_empty two store_id_label_key s j,
    )

abbrev pub labelled : Pod → String → String → String → Pod
labelled pod c m s = record pod { labels = with_ids c m s pod.labels }

module _ (env : Env) (pod : Pod) (c m s : String) where
  -- The ids that the labelled pod should have are those that it has.
  cluster_again :
      wanted_cluster_id env pod ≡ ok c
      → (wanted_cluster_id env (labelled pod c m s) ≡ ok c)
        × (Label.get cluster_id_label_key (labelled pod c m s).labels ≡ c)
  unfolding wanted_cluster_id
  cluster_again h = ground (
    arith,
    eq_iff c "",
    eq_iff (Label.get cluster_id_label_key pod.labels) "",
    after-with_ids c m s cluster_id_label_key pod.labels,
  )

  member_again :
      wanted_member_id env pod ≡ ok m
      → (wanted_member_id env (labelled pod c m s) ≡ ok m)
        × (Label.get member_id_label_key (labelled pod c m s).labels ≡ m)
  unfolding wanted_member_id
  member_again h = ground (
    arith,
    eq_iff m "",
    eq_iff (Label.get member_id_label_key pod.labels) "",
    after-with_ids c m s member_id_label_key pod.labels,
    after-with_ids c m s component_label_key pod.labels,
  )

  store_again :
      wanted_store_id env pod ≡ ok s
      → (wanted_store_id env (labelled pod c m s) ≡ ok s)
        × (Label.get store_id_label_key (labelled pod c m s).labels ≡ s)
  unfolding wanted_store_id
  store_again h = ground (
    arith,
    eq_iff s "",
    eq_iff (Label.get store_id_label_key pod.labels) "",
    after-with_ids c m s store_id_label_key pod.labels,
    after-with_ids c m s component_label_key pod.labels,
  )

-- A pod with an instance label that was labelled with the ids that PD gave is left alone the next
-- time: nothing is asked of the API server, in whatever state, as long as PD answers the same.
pub update_meta_info_again :
    (env : Env) (pod : Pod) (c m s : String) (w : World)
    → is_some (lookup instance_label_key pod.labels) ≡ true
    → wanted_cluster_id env pod ≡ ok c
    → wanted_member_id env pod ≡ ok m
    → wanted_store_id env pod ≡ ok s
    → update_meta_info env (labelled pod c m s) w ≡ (ok tt, w)
unfolding update_meta_info write_ids
update_meta_info_again env pod c m s w instance_known hc hm hs =
    let (c1, c2) = cluster_again env pod c m s hc in
    let (m1, m2) = member_again env pod c m s hm in
    let (s1, s2) = store_again env pod c m s hs in
    ground (
      arith,
      c1,
      c2,
      m1,
      m2,
      s1,
      s2,
      eq_iff (Label.get cluster_id_label_key (labelled pod c m s).labels) c,
      eq_iff (Label.get member_id_label_key (labelled pod c m s).labels) m,
      eq_iff (Label.get store_id_label_key (labelled pod c m s).labels) s,
      after-with_ids c m s instance_label_key pod.labels,
    )
