-- ===== src/Tests/Managers.antt =====
-- The order of a sync, and the status that it leaves.
use elasticell_operator.Base.{
  ◌≡◌, ◌≢◌, ◌⊎◌, ◌↔◌, ◌*◌, ◌<◌, refl, arith, true, false, some, count_if, pos, String, [], ◌∷◌, inr,
  eq_iff,
}
use elasticell_operator.Api.Objects.{StatefulSet}
use elasticell_operator.Api.Cluster.{CellCluster}
use elasticell_operator.Api.Status.{pd_is_available, store_is_available, healthy}
use elasticell_operator.Api.Available.{pd_is_available_iff}
use elasticell_operator.Member.Revisions.{is_upgrading_by}
use elasticell_operator.Effects.{
  Env, ok, World, MemberHealth, StoreInfo, pvcs_with, pods_with, service_at, set_at, request,
}
use elasticell_operator.Member.PdManager.{collect_members, sync_pd_status}
use elasticell_operator.Member.PdManager.Status.{Reported, collect_members-last_report}
use elasticell_operator.Member.StoreManager
use elasticell_operator.Member.StoreManager.{
  collect_stores, sync_store_status, update_store_set, with_times,
}
use elasticell_operator.Meta.Reclaim
use elasticell_operator.Member.Orphans
use elasticell_operator.Member.PdManager
use elasticell_operator.Member.ServiceSync.{
  sync_pd_service, sync_pd_headless_service, sync_store_headless_service, create_new_service,
}
use elasticell_operator.Member.Update.{create_stateful_set}
use elasticell_operator.Member.Config.{
  stateful_set_is_upgrading, set_service_last_applied_config, set_last_applied_config,
}
use elasticell_operator.Member.Builders.PdSet.{get_new_pd_set}
use elasticell_operator.Member.Builders.StoreSet.{get_new_set}
use elasticell_operator.Member.Builders.Services.{
  get_new_pd_service, get_new_pd_headless_service, get_new_store_headless_service,
}
use elasticell_operator.Names.{
  pd_member_name, pd_peer_member_name, store_peer_name, store_member_name,
}
use elasticell_operator.Control.{sync_pd, sync_cluster}
use elasticell_operator.Control.Stages.{stores_wait_for_pd, proxies_wait_for_stores}
use elasticell_operator.Tests.Data.{env, world, cluster, status, set_named, set_status}

pd_is_available_iff_example :
    (pd_is_available cluster ≡ true)
    ↔ ((3 < 2 * count_if healthy cluster.status.pd.members) × (3 < 2 * 3))
pd_is_available_iff_example =
    pd_is_available_iff cluster set_status 3 3 refl (omega arith) refl refl

abbrev old_store : StatefulSet
old_store = set_named "demo-store"

abbrev old_proxy : StatefulSet
old_proxy = set_named "demo-proxy"

abbrev report : MemberHealth
report = record { name = "demo-pd-1"; member_id = 4; client_urls = []; health = false }

abbrev reporting : Env
reporting = record env { get_health = ok (report ∷ []) }

abbrev old_pd : StatefulSet
old_pd = set_named "demo-pd"

named : ◌≢◌ {A = String} "demo-pd-1" ""
named = λ e. ground (arith, (eq_iff "demo-pd-1" "").1 e)

collect_members-last_report_example :
    Reported reporting.now "demo-pd-1"
      (report ∷ [])
      status.pd.members
      (sync_pd_status reporting old_pd world).1.cc.status.pd.members
unfolding sync_pd_status is_upgrading_by stateful_set_is_upgrading
collect_members-last_report_example =
    collect_members-last_report reporting old_pd world (sync_pd_status reporting old_pd world).1
      (report ∷ []) "demo-pd-1" refl refl named

abbrev store_report : StoreInfo
store_report = record {
  meta = record { id = 2; address = "demo-store-1.demo-store-peer:10800"; state = 1; labels = [] };
  status = some (record { leader_count = 3; last_heartbeat_ts = pos 0 });
}

-- Nothing exists yet, and no member and no store is known.
abbrev new_cluster : CellCluster
new_cluster = record cluster {
  status = record status {
    pd = record (status.pd) { members = [] };
    store = record (status.store) { stores = [] };
  };
}

abbrev start : World
start = record world { cc = new_cluster; pods = []; pvcs = []; services = []; sets = [] }

stores_wait_for_pd_example :
    ((sync_cluster env start).1 ≡ (sync_pd env start).1) × ((sync_cluster env start).0 ≢ ok tt)
unfolding sync_pd Reclaim.sync pvcs_with Reclaim.retain_all Orphans.clean pods_with
    Orphans.clean_pods PdManager.sync sync_pd_service sync_pd_headless_service service_at
    create_new_service set_service_last_applied_config request PdManager.sync_pd_stateful_set
    get_new_pd_set PdManager.create_pd_set create_stateful_set set_last_applied_config set_at
    pd_is_available get_new_pd_service get_new_pd_headless_service pd_member_name
    pd_peer_member_name
stores_wait_for_pd_example = stores_wait_for_pd env start (inr refl)

-- PD serves, and the stores' StatefulSet is only created.
abbrev pd_runs : World
pd_runs = record start {
  cc = record new_cluster { status = record (new_cluster.status) { pd = status.pd } };
}

proxies_wait_for_stores_example :
    ((sync_cluster env pd_runs).0 ≢ ok tt)
    × ((((sync_pd env pd_runs).0 ≢ ok tt)
          × ((sync_cluster env pd_runs).1 ≡ (sync_pd env pd_runs).1))
        ⊎ (((sync_pd env pd_runs).0 ≡ ok tt)
            × ((sync_cluster env pd_runs).1 ≡ (StoreManager.sync env (sync_pd env pd_runs).1).1)))
unfolding sync_pd Reclaim.sync pvcs_with Reclaim.retain_all Orphans.clean pods_with
    Orphans.clean_pods PdManager.sync sync_pd_service sync_pd_headless_service
    PdManager.sync_pd_stateful_set get_new_pd_set PdManager.create_pd_set get_new_pd_service
    get_new_pd_headless_service pd_member_name pd_peer_member_name StoreManager.sync pd_is_available
    sync_store_headless_service service_at create_new_service set_service_last_applied_config
    request StoreManager.sync_store_stateful_set get_new_set StoreManager.create_store_set
    create_stateful_set set_last_applied_config set_at store_is_available
    get_new_store_headless_service store_peer_name store_member_name
proxies_wait_for_stores_example = proxies_wait_for_stores env pd_runs (inr refl)
