-- ===== src/Member/PdManager.antt =====
-- pkg/manager/member/pd_member_manager.go
pub mod Status
pub mod NoScale
use elasticell_operator.Base.{
  ℕ, String, Bool, true, false, ◌||◌, Option, none, some, List, [], ◌∷◌, Dict, ℤ, lookup, insert,
  not, eqb_ℤ, decimal, ◌==◌, if◌then◌else◌,
}
use elasticell_operator.Api.Objects.{StatefulSet, SetStatus}
use elasticell_operator.Api.Cluster.{
  CellCluster, PdStatus, PdMember, MemberPhase, normal_phase, upgrade_phase, is_upgrade,
}
use elasticell_operator.Names.{pd_member_name}
use elasticell_operator.Effects.{
  Error, not_found, requeue, waiting_for_pd, Result, ok, err, MemberHealth, World, Env, M, pure,
  fail, lift, gets, modify, on_error, logged, ◌>>=◌, ◌>>◌, set_at,
}
use elasticell_operator.Member.Config.{template_equal}
use elasticell_operator.Member.Revisions.{is_upgrading_by}
use elasticell_operator.Member.Builders.Parts.{empty_set_status}
use elasticell_operator.Member.Builders.PdSet.{get_new_pd_set, pd_labels}
use elasticell_operator.Member.Update.{create_stateful_set, update_if_changed}
use elasticell_operator.Member.ServiceSync.{sync_pd_service, sync_pd_headless_service}
use elasticell_operator.Member.PdUpgrader

abbrev pub set_pd : (PdStatus → PdStatus) → World → World
set_pd f w = record w {
  cc = record (w.cc) { status = record (w.cc.status) { pd = f w.cc.status.pd } };
}

abbrev pub set_cluster_id : String → World → World
set_cluster_id id w = record w {
  cc = record (w.cc) { status = record (w.cc.status) { cluster_id = id } };
}

abbrev pub phase_of : Bool → MemberPhase
phase_of true = upgrade_phase
phase_of false = normal_phase

abbrev first_url : List String → String
first_url [] = ""
first_url (url ∷ urls) = url

abbrev same_health : Bool → Bool → Bool
same_health true b = b
same_health false b = not b

-- The time of the last change of health: kept while the health is the one recorded before.
abbrev pub transition_time : ℕ → Bool → Option PdMember → ℕ
transition_time now health none = now
transition_time now health (some old) =
    if same_health health old.health then old.last_transition_time else now

abbrev member_of : ℕ → Dict PdMember → MemberHealth → PdMember
member_of now old h = record {
  name = h.name;
  id = decimal h.member_id;
  client_url = first_url h.client_urls;
  health = h.health;
  last_transition_time = transition_time now h.health (lookup h.name old);
}

-- The loop over the members that PD reports; one without a name is passed over.
unfoldable pub collect_members :
    ℕ → Dict PdMember → List MemberHealth → Dict PdMember → Dict PdMember
collect_members now old [] members = members
collect_members now old (h ∷ hs) members =
    collect_members now old hs
      (if h.name == "" then members else insert h.name (member_of now old h) members)

abbrev no_leader : PdMember
no_leader = record { name = ""; id = ""; client_url = ""; health = false; last_transition_time = 0 }

abbrev unsynced : World → World
unsynced w = set_pd (λ p. record p { synced = false }) w

module _ (env : Env) where
  unfoldable pub sync_pd_status : StatefulSet → M (Unit {0})
  sync_pd_status set = do
    modify (set_pd (λ p. record p { stateful_set = some set.status }))
    cluster ← gets (λ w. w.cc)
    upgrading ← is_upgrading_by env (pd_labels cluster) set
    modify (set_pd (λ p. record p { phase = phase_of upgrading }))
    id ← on_error unsynced (lift env.get_cluster)
    modify (set_cluster_id id)
    healths ← on_error unsynced (lift env.get_health)
    on_error unsynced (lift env.get_pd_leader)
    modify (
        set_pd (λ p. record p {
          synced = true;
          members = collect_members env.now p.members healths [];
          leader = no_leader;
        }))

  unfoldable pub create_pd_set : StatefulSet → M (Unit {0})
  create_pd_set new = do
    create_stateful_set env new
    modify (set_pd (λ p. record p { stateful_set = some empty_set_status }))
    fail (requeue waiting_for_pd)

  unfoldable pub upgrade_if_needed : StatefulSet → M (Unit {0})
  upgrade_if_needed old = do
    w ← gets (λ w. w)
    elim (not (template_equal env w.draft.spec.template old.spec.template)
        || is_upgrade w.cc.status.pd.phase) [ true ↦ PdUpgrader.upgrade env old | false ↦ pure tt ]

  -- PD is never scaled: with another number of replicas nothing is updated at all.
  unfoldable pub update_unless_scaled : StatefulSet → M (Unit {0})
  update_unless_scaled old = do
    new ← gets (λ w. w.draft)
    elim (eqb_ℤ new.spec.replicas old.spec.replicas) [
      | true ↦ update_if_changed env old
      | false ↦ pure tt
    ]

  -- An error of the status sync is only logged.
  unfoldable pub update_pd_set : StatefulSet → M (Unit {0})
  update_pd_set old = do
    logged (sync_pd_status old)
    upgrade_if_needed old
    update_unless_scaled old

  abbrev pub sync_found : StatefulSet → Result StatefulSet → M (Unit {0})
  sync_found new (ok old) = update_pd_set old
  sync_found new (err not_found) = create_pd_set new
  sync_found new (err e) = fail e

  unfoldable pub sync_pd_stateful_set : M (Unit {0})
  sync_pd_stateful_set = do
    cluster ← gets (λ w. w.cc)
    new ← lift (get_new_pd_set env cluster)
    modify (λ w. record w { draft = new })
    found ← gets (λ w. set_at env cluster.namespace (pd_member_name cluster.name) w.sets)
    sync_found new found

  unfoldable pub sync : M (Unit {0})
  sync = do sync_pd_service env; sync_pd_headless_service env; sync_pd_stateful_set
