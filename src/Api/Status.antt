-- ===== src/Api/Status.antt =====
-- cellcluster.go: the predicates over a cluster's status that the managers branch on.
-- Ranging over a map only counts or searches here, so its order does not matter.
use elasticell_operator.Base.{
  String, Bool, true, false, not, Option, none, some, ℤ, pos, add32, half, suc_ℤ, to_int32, ltb_ℤ,
  eqb_ℤ, length, count_if, any, nat_eq, if◌then◌else◌,
}
use elasticell_operator.Api.Objects.{SetStatus}
use elasticell_operator.Api.Cluster.{
  CellCluster, MemberType, pd, store, proxy, unknown, PdMember, PdFailureMember, KvStore,
  is_upgrade, is_up,
}

abbrev pub member_type : MemberType → String
member_type pd = "pd"
member_type store = "store"
member_type proxy = "proxy"
member_type unknown = "unknown"

unfoldable pub pd_upgrading : CellCluster → Bool
pd_upgrading cc = is_upgrade cc.status.pd.phase

unfoldable pub store_upgrading : CellCluster → Bool
store_upgrading cc = is_upgrade cc.status.store.phase

unfoldable pub pd_real_replicas : CellCluster → ℤ
pd_real_replicas cc = add32 cc.spec.pd.replicas (length cc.status.pd.failure_members)

unfoldable pub store_real_replicas : CellCluster → ℤ
store_real_replicas cc = add32 cc.spec.store.replicas (length cc.status.store.failure_stores)

unfoldable pub proxy_real_replicas : CellCluster → ℤ
proxy_real_replicas cc = add32 cc.spec.proxy.replicas (length cc.status.proxy.failure_members)

-- `none` is the panic on a nil StatefulSet status.
abbrev started : ℤ → Option SetStatus → Option Bool
started n none = none
started n (some s) = some (eqb_ℤ n s.replicas)

unfoldable pub pd_all_pods_started : CellCluster → Option Bool
unfolding pd_real_replicas
pd_all_pods_started cc = started (pd_real_replicas cc) cc.status.pd.stateful_set

unfoldable pub store_all_pods_started : CellCluster → Option Bool
unfolding store_real_replicas
store_all_pods_started cc = started (store_real_replicas cc) cc.status.store.stateful_set

unfoldable pub proxy_all_pods_started : CellCluster → Option Bool
unfolding proxy_real_replicas
proxy_all_pods_started cc = started (proxy_real_replicas cc) cc.status.proxy.stateful_set

abbrev pub healthy : String × PdMember → Bool
healthy (name, member) = member.health

abbrev pub store_up : String × KvStore → Bool
store_up (id, s) = is_up s.state

abbrev not_deleted : String × PdFailureMember → Bool
not_deleted (name, member) = not member.member_deleted

unfoldable pub pd_all_members_ready : CellCluster → Bool
unfolding pd_real_replicas
pd_all_members_ready cc =
    if eqb_ℤ (pd_real_replicas cc) (pos (length cc.status.pd.members))
    then not (any (λ m. not (healthy m)) cc.status.pd.members)
    else false

unfoldable pub pd_auto_failovering : CellCluster → Bool
pd_auto_failovering cc =
    if nat_eq (length cc.status.pd.failure_members) 0
    then false
    else any not_deleted cc.status.pd.failure_members

unfoldable pub store_all_stores_ready : CellCluster → Bool
unfolding store_real_replicas
store_all_stores_ready cc =
    if eqb_ℤ (store_real_replicas cc) (pos (length cc.status.store.stores))
    then not (any (λ s. not (store_up s)) cc.status.store.stores)
    else false

-- The body that compares members is commented out in the source.
unfoldable pub proxy_all_members_ready : CellCluster → Bool
proxy_all_members_ready cc = true

abbrev ready_below : ℤ → Option SetStatus → Bool
ready_below limit none = true
ready_below limit (some s) = ltb_ℤ s.ready_replicas limit

-- `Replicas/2 + 1`, the quorum.
abbrev pub quorum : ℤ → ℤ
quorum n = suc_ℤ (half n)

unfoldable pub pd_is_available : CellCluster → Bool
pd_is_available cc =
    let lower_limit = quorum cc.spec.pd.replicas in
    if ltb_ℤ (to_int32 (length cc.status.pd.members)) lower_limit
    then false
    else if ltb_ℤ (to_int32 (count_if healthy cc.status.pd.members)) lower_limit
    then false
    else if ready_below lower_limit cc.status.pd.stateful_set
    then false
    else true

unfoldable pub store_is_available : CellCluster → Bool
store_is_available cc =
    let lower_limit : ℤ = pos 1 in
    if ltb_ℤ (to_int32 (length cc.status.store.stores)) lower_limit
    then false
    else if ltb_ℤ (to_int32 (count_if store_up cc.status.store.stores)) lower_limit
    then false
    else if ready_below lower_limit cc.status.store.stateful_set
    then false
    else true
