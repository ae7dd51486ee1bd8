-- ===== src/Member/StoreManager.antt =====
-- pkg/manager/member/store_member_manager.go
pub mod Replicas
pub mod Transitions
pub mod Order
use elasticell_operator.Base.{
  ◌*◌, ℕ, String, Bool, true, false, ◌&&◌, ◌||◌, not, Option, none, some, List, [], ◌∷◌, Dict, ℤ,
  pos, negsuc, lookup, insert, decimal, ltb_ℤ, to_int32, nat_eq, if◌then◌else◌,
}
use elasticell_operator.Api.Objects.{StatefulSet, SetStatus}
use elasticell_operator.Api.Cluster.{
  CellCluster, StoreStatus, KvStore, StoreState, up, down, tombstone, MemberPhase, normal_phase,
  upgrade_phase, is_upgrade, same_state,
}
use elasticell_operator.Api.Status.{pd_is_available}
use elasticell_operator.Names.{store_member_name}
use elasticell_operator.Util.Texts.{split}
use elasticell_operator.Effects.{
  Error, not_found, requeue, waiting_for_pd, Result, ok, err, StoreInfo, StoreInfoStatus, World,
  Env, M, pure, fail, lift, gets, modify, on_error, ◌>>=◌, ◌>>◌, set_at,
}
use elasticell_operator.Member.Config.{template_equal}
use elasticell_operator.Member.Revisions.{is_upgrading_by}
use elasticell_operator.Member.Builders.Parts.{empty_set_status}
use elasticell_operator.Member.Builders.StoreSet.{get_new_set, label_store}
use elasticell_operator.Member.Update.{create_stateful_set, update_if_changed, with_replicas}
use elasticell_operator.Member.ServiceSync.{sync_store_headless_service}
use elasticell_operator.Member.StoreUpgrader
use elasticell_operator.Member.StoreScaler.{scale_out}

abbrev pub set_store : (StoreStatus → StoreStatus) → World → World
set_store f w = record w {
  cc = record (w.cc) { status = record (w.cc.status) { store = f w.cc.status.store } };
}

abbrev pub head_of : List String → String
head_of [] = ""
head_of (s ∷ ss) = s

-- The seconds of a time stamp of PD, as a time; one that is not positive is no time.
abbrev heartbeat : ℤ → ℕ
heartbeat (pos n) = n * 1000000000
heartbeat (negsuc n) = 0

abbrev state_of : ℕ → StoreState
state_of n = if nat_eq n 1 then down else if nat_eq n 2 then tombstone else up

abbrev pub kv_store : StoreInfo → String → StoreInfoStatus → KvStore
kv_store info ip s = record {
  id = decimal info.meta.id;
  pod_name = head_of (split b'.' ip);
  ip = ip;
  leader_count = to_int32 s.leader_count;
  state = state_of info.meta.state;
  last_heartbeat_time = heartbeat s.last_heartbeat_ts;
  last_transition_time = 0;
}

unfoldable pub get_kv_store : StoreInfo → Option KvStore
get_kv_store info = elim info.status [
  | none ↦ none
  | some s ↦ some (kv_store info (head_of (split b':' info.meta.address)) s)
]

-- The time of the last heartbeat is kept when PD lost it, and the time of the last change of
-- state while the state is the one recorded before.
unfoldable pub with_times : ℕ → Option KvStore → KvStore → KvStore
with_times now none s = record s { last_transition_time = now }
with_times now (some old) s = record s {
  last_heartbeat_time =
      if nat_eq s.last_heartbeat_time 0 then old.last_heartbeat_time else s.last_heartbeat_time;
  last_transition_time = if same_state s.state old.state then old.last_transition_time else now;
}

abbrev pub put_store : ℕ → Dict KvStore → Option KvStore → Dict KvStore → Dict KvStore
put_store now old none stores = stores
put_store now old (some s) stores = insert s.id (with_times now (lookup s.id old) s) stores

-- The loop over the stores that PD reports, and the one over the tombstones.
unfoldable pub collect_stores : ℕ → Dict KvStore → List StoreInfo → Dict KvStore → Dict KvStore
collect_stores now old [] stores = stores
collect_stores now old (i ∷ is) stores =
    collect_stores now old is (put_store now old (get_kv_store i) stores)

abbrev pub put_tombstone : Option KvStore → Dict KvStore → Dict KvStore
put_tombstone none stores = stores
put_tombstone (some s) stores = insert s.id s stores

unfoldable pub collect_tombstones : List StoreInfo → Dict KvStore → Dict KvStore
collect_tombstones [] stores = stores
collect_tombstones (i ∷ is) stores = collect_tombstones is (put_tombstone (get_kv_store i) stores)

abbrev unsynced : World → World
unsynced w = set_store (λ s. record s { synced = false }) w

abbrev pub phase_of : Bool → MemberPhase → MemberPhase
phase_of upgrading pd_phase =
    if upgrading && not (is_upgrade pd_phase) then upgrade_phase else normal_phase

module _ (env : Env) where
  unfoldable pub sync_store_status : StatefulSet → M (Unit {0})
  sync_store_status set = do
    modify (set_store (λ s. record s { stateful_set = some set.status }))
    cluster ← gets (λ w. w.cc)
    upgrading ← is_upgrading_by env (label_store cluster) set
    modify (set_store (λ s. record s { phase = phase_of upgrading cluster.status.pd.phase }))
    infos ← on_error unsynced (lift env.get_stores)
    let stores = collect_stores env.now cluster.status.store.stores infos []
    tombs ← on_error unsynced (lift env.get_tombstone_stores)
    modify (
        set_store (λ s. record s {
          synced = true;
          stores = stores;
          tombstone_stores = collect_tombstones tombs [];
        }))

  unfoldable pub create_store_set : StatefulSet → M (Unit {0})
  create_store_set new = do
    create_stateful_set env new
    modify (set_store (λ s. record s { stateful_set = some empty_set_status }))

  unfoldable pub upgrade_if_needed : StatefulSet → M (Unit {0})
  upgrade_if_needed old = do
    w ← gets (λ w. w)
    elim (not (template_equal env w.draft.spec.template old.spec.template)
        || is_upgrade w.cc.status.store.phase) [
          | true ↦ StoreUpgrader.upgrade env old
          | false ↦ pure tt
        ]

  unfoldable pub scale_out_if_more : StatefulSet → M (Unit {0})
  scale_out_if_more old = do
    new ← gets (λ w. w.draft)
    elim (ltb_ℤ old.spec.replicas new.spec.replicas) [ true ↦ scale_out env old | false ↦ pure tt ]

  -- Scaling in is commented out: fewer replicas than before are replaced by those before.
  unfoldable pub keep_if_less : StatefulSet → M (Unit {0})
  keep_if_less old = do
    new ← gets (λ w. w.draft)
    elim (ltb_ℤ new.spec.replicas old.spec.replicas) [
      | true ↦ modify (λ w. record w { draft = with_replicas old.spec.replicas w.draft })
      | false ↦ pure tt
    ]

  unfoldable pub update_store_set : StatefulSet → M (Unit {0})
  update_store_set old = do
    sync_store_status old
    upgrade_if_needed old
    scale_out_if_more old
    keep_if_less old
    update_if_changed env old

  abbrev pub sync_found : StatefulSet → Result StatefulSet → M (Unit {0})
  sync_found new (ok old) = update_store_set old
  sync_found new (err not_found) = create_store_set new
  sync_found new (err e) = fail e

  unfoldable pub sync_store_stateful_set : M (Unit {0})
  sync_store_stateful_set = do
    cluster ← gets (λ w. w.cc)
    new ← lift (get_new_set env cluster)
    modify (λ w. record w { draft = new })
    found ← gets (λ w. set_at env cluster.namespace (store_member_name cluster.name) w.sets)
    sync_found new found

  unfoldable pub sync : M (Unit {0})
  sync = do
    cluster ← gets (λ w. w.cc)
    elim (pd_is_available cluster) [
      | false ↦ fail (requeue waiting_for_pd)
      | true ↦ do sync_store_headless_service env; sync_store_stateful_set
    ]
