-- ===== src/Tests/Labels.antt =====
-- Labelling pods and claims with the ids that PD gives.
use elasticell_operator.Base.{◌≡◌, ◌≢◌, refl, none, some, String, [], ◌∷◌, eq_iff, pos, arith}
use elasticell_operator.Api.Objects.{Pod, Pvc}
use elasticell_operator.Effects.{Env, ok, StoreInfo}
use elasticell_operator.Util.Texts.{split}
use elasticell_operator.Controls.PodMeta
use elasticell_operator.Controls.PodMeta.{
  wanted_cluster_id, wanted_member_id, wanted_store_id, member_id_of,
}
use elasticell_operator.Controls.PodMeta.Again.{labelled}
use elasticell_operator.Controls.PodMeta.Addresses.{store_id_never_found, new_store_id}
use elasticell_operator.Member.StoreManager.{get_kv_store}
use elasticell_operator.Tests.Data.{env, world, pod_named, pvc_named}

abbrev pd_pod : Pod
pd_pod = pod_named "demo-pd-1" "pd" "old"

abbrev store_pod : Pod
store_pod = pod_named "demo-store-1" "store" "old"

abbrev info : StoreInfo
info = record {
  meta = record { id = 2; address = "demo-store-1.demo-store-peer:10800"; state = 0; labels = [] };
  status = some (record { leader_count = 3; last_heartbeat_ts = pos 7 });
}

abbrev with_store : Env
with_store = record env { get_stores = ok (info ∷ []) }

-- The store runs in the pod, as the store manager reads the same address.
abbrev pod_of : StoreInfo → String
pod_of i = elim (get_kv_store i) [ none ↦ "" | some s ↦ s.pod_name ]

same_pod : pod_of info ≡ "demo-store-1"
unfolding get_kv_store split
same_pod = refl

store_id_never_found_example :
    new_store_id (PodMeta.update_meta_info with_store store_pod world).1.calls ≡ ""
unfolding split
store_id_never_found_example =
    store_id_never_found with_store store_pod (info ∷ []) world refl (refl, tt) refl refl refl

abbrev claim : Pvc
claim = pvc_named "store-demo-store-1"

-- The pod has the ids of the cluster, of a member and of a store.
abbrev known_pod : Pod
known_pod = labelled store_pod "9" "1" "2"

given : ◌≢◌ {A = String} "demo-store-1" ""
given e = ground (arith, (eq_iff "demo-store-1" "").1 e)

-- The claim has the id of the store.
abbrev owned : Pvc
owned = record claim { labels = ("cell.deepfabric.com/store-id", "2") ∷ [] }

has_id : ◌≢◌ {A = String} "2" ""
has_id e = ground (arith, (eq_iff "2" "").1 e)
