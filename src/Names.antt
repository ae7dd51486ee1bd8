-- ===== src/Names.antt =====
-- The names of a cluster's objects: pkg/controller/controller_utils.go, the pod names of
-- pkg/manager/member/utils.go and the ordinal names of pkg/manager/member/scaler.go.
pub mod Unique
use Prim.Native.String.{◌++◌}
use elasticell_operator.Base.{suc, String, ℤ, pos, negsuc, decimal}
use elasticell_operator.Api.Cluster.{MemberType}
use elasticell_operator.Api.Status.{member_type}

unfoldable pub pd_member_name : String → String
pd_member_name cluster = cluster ++ "-pd"

unfoldable pub pd_peer_member_name : String → String
pd_peer_member_name cluster = cluster ++ "-pd-peer"

unfoldable pub store_member_name : String → String
store_member_name cluster = cluster ++ "-store"

unfoldable pub store_peer_name : String → String
store_peer_name cluster = cluster ++ "-store-peer"

unfoldable pub proxy_member_name : String → String
proxy_member_name cluster = cluster ++ "-proxy"

-- `%d` of an int32.
unfoldable pub signed_decimal : ℤ → String
unfolding decimal
signed_decimal (pos n) = decimal n
signed_decimal (negsuc n) = "-" ++ decimal (suc n)

unfoldable pub store_pod_name : String → ℤ → String
unfolding store_member_name signed_decimal
store_pod_name cluster ordinal = store_member_name cluster ++ "-" ++ signed_decimal ordinal

unfoldable pub pd_pod_name : String → ℤ → String
unfolding pd_member_name signed_decimal
pd_pod_name cluster ordinal = pd_member_name cluster ++ "-" ++ signed_decimal ordinal

unfoldable pub proxy_pod_name : String → ℤ → String
unfolding proxy_member_name signed_decimal
proxy_pod_name cluster ordinal = proxy_member_name cluster ++ "-" ++ signed_decimal ordinal

unfoldable pub ordinal_pvc_name : MemberType → String → ℤ → String
unfolding signed_decimal
ordinal_pvc_name member set_name ordinal =
    member_type member ++ "-" ++ set_name ++ "-" ++ signed_decimal ordinal

unfoldable pub ordinal_pod_name : MemberType → String → ℤ → String
unfolding signed_decimal
ordinal_pod_name member cluster ordinal =
    cluster ++ "-" ++ member_type member ++ "-" ++ signed_decimal ordinal
