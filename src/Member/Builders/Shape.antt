-- ===== src/Member/Builders/Shape.antt =====
-- What the StatefulSets that the managers build have in common.
use elasticell_operator.Base.{◌≡◌, refl, true, some, String, arith, eq_iff}
use elasticell_operator.Api.Objects.{StatefulSet}
use elasticell_operator.Api.Cluster.{CellCluster}
use elasticell_operator.Effects.{Env, matches}
use elasticell_operator.Member.Config.{partition_of}
use elasticell_operator.Api.Pods.{Quantity}
use elasticell_operator.Label.{fresh, with_instance, with_component}
use elasticell_operator.Member.Builders.Parts.{instance_name}
use elasticell_operator.Member.Builders.PdSet.{pd_set}
use elasticell_operator.Member.Builders.StoreSet.{store_set}
use elasticell_operator.Member.Builders.ProxySet.{get_new_proxy_set}

-- The selector finds the pods made from the template, and the partition lies above every ordinal,
-- so that no pod is replaced before an upgrader lowers it.
abbrev pub Guarded : StatefulSet → Type 0
Guarded set =
    (matches set.spec.selector set.spec.template.labels ≡ true)
    × (partition_of set ≡ some set.spec.replicas)

-- The labels of a component select themselves.
labels_match :
    (name component : String)
    → matches
        (with_component component (with_instance name fresh))
        (with_component component (with_instance name fresh))
      ≡ true
unfolding matches
labels_match name component = ground (arith, eq_iff name name, eq_iff component component)

pd_set-Guarded : (env : Env) (cluster : CellCluster) (q : Quantity) → Guarded (pd_set env cluster q)
unfolding pd_set
pd_set-Guarded env cluster q = (labels_match (instance_name cluster) "pd", refl)

-- The StatefulSets that the managers want for PD, the stores and the proxies, with whatever size of
-- storage, each select the pods of their own template, and their partition is the number of
-- replicas, so that no pod is replaced before an upgrader lowers it.
pub wanted_sets-Guarded :
    (env : Env) (cluster : CellCluster) (q : Quantity)
    → Guarded (pd_set env cluster q)
      × Guarded (store_set env cluster q)
      × Guarded (get_new_proxy_set env cluster)
unfolding store_set get_new_proxy_set
wanted_sets-Guarded env cluster q = (
  pd_set-Guarded env cluster q,
  (labels_match (instance_name cluster) "store", refl),
  (labels_match (instance_name cluster) "proxy", refl),
)
