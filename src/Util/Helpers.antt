-- ===== src/Util/Helpers.antt =====
-- Helpers of pkg/controller/controller_utils.go.
use Prim.Native.String.{◌++◌}
use elasticell_operator.Base.{
  suc, ◌/◌, String, Bool, true, false, Option, none, some, List, [], ◌∷◌, Dict, insert, ℤ, pos,
  negsuc, sub_ℕ, ◌==◌, if◌then◌else◌,
}
use elasticell_operator.Api.Objects.{OwnerReference}
use elasticell_operator.Api.Cluster.{CellCluster, ServiceEntry, ResourceRequirement}
use elasticell_operator.Names.{signed_decimal}
use elasticell_operator.Effects.{Error, requeue, Env}

unfoldable pub is_requeue_error : Error → Bool
is_requeue_error (requeue reason) = true
is_requeue_error _ = false

unfoldable pub get_owner_ref : CellCluster → OwnerReference
get_owner_ref cluster = record {
  api_version = "deepfabric.com/v1alpha1";
  kind = "CellCluster";
  name = cluster.name;
  uid = cluster.uid;
  controller = true;
  block_owner_deletion = true;
}

abbrev service_type_of : String → String
service_type_of t =
    if t == "NodePort"
    then "NodePort"
    else if t == "LoadBalancer"
    then "LoadBalancer"
    else "ClusterIP"

unfoldable pub get_service_type : List ServiceEntry → String → String
get_service_type [] name = "ClusterIP"
get_service_type (svc ∷ rest) name =
    if svc.name == name then service_type_of svc.service_type else get_service_type rest name

-- `int(float64(i)/math.Pow(2, 30))`, exact below 2^53 bytes.
abbrev gibibytes : ℤ → ℤ
gibibytes (pos n) = pos (n / 1073741824)
gibibytes (negsuc n) = sub_ℕ 0 (suc n / 1073741824)

abbrev capacity_of : Option ℤ → String
capacity_of none = "0"
capacity_of (some i) = signed_decimal (gibibytes i) ++ "GB"

abbrev bytes_of : Env → Option ℤ → Option ℤ
bytes_of env none = none
bytes_of env (some q) = env.as_int64 q

unfoldable pub store_capacity : Env → Option ResourceRequirement → String
unfolding signed_decimal
store_capacity env none = "0"
store_capacity env (some limits) =
    if limits.storage == ""
    then "0"
    else capacity_of (bytes_of env (env.parse_quantity limits.storage))

unfoldable pub set_if_not_empty : Dict String → String → String → Dict String
set_if_not_empty container key value = if value == "" then container else insert key value container
