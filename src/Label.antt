-- ===== src/Label.antt =====
-- pkg/label/label.go: the label keys, and the labels that select a cluster's objects. A method
-- that writes into the receiver's map returns the new map.
use elasticell_operator.Base.{String, Bool, Option, none, some, [], ◌∷◌, Dict, lookup, insert, ◌==◌}

abbrev pub managed_by_label_key : String
managed_by_label_key = "app.kubernetes.io/managed-by"

abbrev pub component_label_key : String
component_label_key = "app.kubernetes.io/component"

abbrev pub name_label_key : String
name_label_key = "app.kubernetes.io/name"

abbrev pub instance_label_key : String
instance_label_key = "app.kubernetes.io/instance"

abbrev pub namespace_label_key : String
namespace_label_key = "app.kubernetes.io/namespace"

abbrev pub cluster_id_label_key : String
cluster_id_label_key = "cell.deepfabric.com/cluster-id"

abbrev pub store_id_label_key : String
store_id_label_key = "cell.deepfabric.com/store-id"

abbrev pub member_id_label_key : String
member_id_label_key = "cell.deepfabric.com/member-id"

abbrev pub ann_pod_name_key : String
ann_pod_name_key = "cell.deepfabric.com/pod-name"

abbrev pub ann_pvc_defer_deleting : String
ann_pvc_defer_deleting = "cell.deepfabric.com/pvc-defer-deleting"

abbrev pub ann_pvc_pod_scheduling : String
ann_pvc_pod_scheduling = "cell.deepfabric.com/pod-scheduling"

abbrev pub pd_label_val : String
pd_label_val = "pd"

abbrev pub proxy_label_val : String
proxy_label_val = "proxy"

abbrev pub store_label_val : String
store_label_val = "store"

abbrev pub Label : Type 0
Label = Dict String

-- Reading a missing key of a map of texts gives the empty text.
abbrev or_empty : Option String → String
or_empty none = ""
or_empty (some v) = v

abbrev pub get : String → Label → String
get k l = or_empty (lookup k l)

-- `New` of the source.
abbrev pub fresh : Label
fresh = (name_label_key, "cell-cluster") ∷ (managed_by_label_key, "cell-operator") ∷ []

abbrev pub with_instance : String → Label → Label
with_instance name l = insert instance_label_key name l

abbrev pub with_namespace : String → Label → Label
with_namespace name l = insert namespace_label_key name l

abbrev pub with_component : String → Label → Label
with_component name l = insert component_label_key name l

abbrev pub component_type : Label → String
component_type l = get component_label_key l

abbrev pub pd_label : Label → Label
pd_label l = with_component pd_label_val l

abbrev pub proxy_label : Label → Label
proxy_label l = with_component proxy_label_val l

abbrev pub store_label : Label → Label
store_label l = with_component store_label_val l

unfoldable pub is_pd : Label → Bool
is_pd l = get component_label_key l == pd_label_val

unfoldable pub is_store : Label → Bool
is_store l = get component_label_key l == store_label_val

unfoldable pub is_proxy : Label → Bool
is_proxy l = get component_label_key l == proxy_label_val
