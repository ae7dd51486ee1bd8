-- ===== src/Api/Available.antt =====
-- When a component counts as available (cellcluster.go).
use elasticell_operator.Base.{
  ℕ, ◌*◌, ◌<◌, ◌≡◌, true, ◌↔◌, some, pos, length, count_if, count_if-le-length, min_int32, arith,
}
use elasticell_operator.Api.Objects.{SetStatus}
use elasticell_operator.Api.Cluster.{CellCluster}
use elasticell_operator.Api.Status.{pd_is_available, healthy}

-- For a cluster of n PD replicas whose member map is smaller than 2^31 and whose StatefulSet
-- status reports r ready replicas, PD counts as available exactly if more than half of the n
-- replicas are healthy members and more than half of n are ready.
pub pd_is_available_iff :
    (cc : CellCluster) (s : SetStatus) (n r : ℕ)
    → cc.spec.pd.replicas ≡ pos n
    → length cc.status.pd.members < min_int32
    → cc.status.pd.stateful_set ≡ some s
    → s.ready_replicas ≡ pos r
    → (pd_is_available cc ≡ true) ↔ ((n < 2 * count_if healthy cc.status.pd.members) × (n < 2 * r))
unfolding pd_is_available
pd_is_available_iff cc s n r e small st rd =
    ground (arith, count_if-le-length healthy cc.status.pd.members)
