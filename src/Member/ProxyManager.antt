-- ===== src/Member/ProxyManager.antt =====
-- pkg/manager/member/proxy_member_manager.go
pub mod Order
use elasticell_operator.Base.{
  String, Bool, true, false, ◌&&◌, ◌||◌, not, Option, none, some, List, Dict, if◌then◌else◌,
}
use elasticell_operator.Api.Objects.{StatefulSet, SetStatus}
use elasticell_operator.Api.Cluster.{
  CellCluster, ProxyStatus, MemberPhase, normal_phase, upgrade_phase, is_upgrade,
}
use elasticell_operator.Api.Status.{store_is_available}
use elasticell_operator.Names.{proxy_member_name}
use elasticell_operator.Effects.{
  Error, not_found, requeue, waiting_for_store, Result, ok, err, World, Env, M, pure, fail, gets,
  modify, ◌>>=◌, ◌>>◌, set_at,
}
use elasticell_operator.Member.Config.{template_equal}
use elasticell_operator.Member.Revisions.{is_upgrading_by}
use elasticell_operator.Member.Builders.Parts.{empty_set_status}
use elasticell_operator.Member.Builders.ProxySet.{get_new_proxy_set, proxy_labels}
use elasticell_operator.Member.Update.{create_stateful_set, update_if_changed}
use elasticell_operator.Member.ProxyUpgrader

abbrev pub set_proxy : (ProxyStatus → ProxyStatus) → World → World
set_proxy f w = record w {
  cc = record (w.cc) { status = record (w.cc.status) { proxy = f w.cc.status.proxy } };
}

abbrev pub phase_of : Bool → MemberPhase → MemberPhase → MemberPhase
phase_of upgrading store_phase pd_phase =
    if upgrading && not (is_upgrade store_phase) && not (is_upgrade pd_phase)
    then upgrade_phase
    else normal_phase

module _ (env : Env) where
  unfoldable pub sync_proxy_status : StatefulSet → M (Unit {0})
  sync_proxy_status set = do
    modify (set_proxy (λ p. record p { stateful_set = some set.status }))
    cluster ← gets (λ w. w.cc)
    upgrading ← is_upgrading_by env (proxy_labels cluster) set
    modify (
        set_proxy (λ p. record p {
          phase = phase_of upgrading cluster.status.store.phase cluster.status.pd.phase;
        }))

  unfoldable pub create_proxy_set : StatefulSet → M (Unit {0})
  create_proxy_set new = do
    create_stateful_set env new
    modify (set_proxy (λ p. record p { stateful_set = some empty_set_status }))

  unfoldable pub upgrade_if_needed : StatefulSet → M (Unit {0})
  upgrade_if_needed old = do
    w ← gets (λ w. w)
    elim (not (template_equal env w.draft.spec.template old.spec.template)
        || is_upgrade w.cc.status.proxy.phase) [
          | true ↦ ProxyUpgrader.upgrade env old
          | false ↦ pure tt
        ]

  unfoldable pub update_proxy_set : StatefulSet → M (Unit {0})
  update_proxy_set old = do sync_proxy_status old; upgrade_if_needed old; update_if_changed env old

  abbrev pub sync_found : StatefulSet → Result StatefulSet → M (Unit {0})
  sync_found new (ok old) = update_proxy_set old
  sync_found new (err not_found) = create_proxy_set new
  sync_found new (err e) = fail e

  unfoldable pub sync_proxy_stateful_set : M (Unit {0})
  sync_proxy_stateful_set = do
    cluster ← gets (λ w. w.cc)
    let new = get_new_proxy_set env cluster
    modify (λ w. record w { draft = new })
    found ← gets (λ w. set_at env cluster.namespace (proxy_member_name cluster.name) w.sets)
    sync_found new found

  unfoldable pub sync : M (Unit {0})
  sync = do
    cluster ← gets (λ w. w.cc)
    elim (store_is_available cluster) [
      | false ↦ fail (requeue waiting_for_store)
      | true ↦ sync_proxy_stateful_set
    ]
