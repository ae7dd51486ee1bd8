-- ===== src/PdClient/Wired.antt =====
-- The managers with the client of pd_control.go in the place of PD's answers.
use elasticell_operator.Base.{
  ℕ, String, ◌&&◌, not, ◌≡◌, inl, inr, refl, List, [], ◌∷◌, map, Dict, insert, if◌then◌else◌, arith,
  is_some, Option-cases,
}
use elasticell_operator.Base.Lists.{All}
use elasticell_operator.Api.Objects.{StatefulSet}
use elasticell_operator.Api.Cluster.{KvStore, down}
use elasticell_operator.Effects.{World, Env, Result, ok, err, Error, StoreInfo}
use elasticell_operator.Member.Revisions.{is_upgrading_by}
use elasticell_operator.Member.Builders.PdSet.{pd_labels}
use elasticell_operator.Member.PdManager.{sync_pd_status}
use elasticell_operator.Member.PdManager.Status.{is_ok, sync_pd_status_synced}
use elasticell_operator.Util.Texts.{split}
use elasticell_operator.Member.StoreManager
use elasticell_operator.Member.StoreManager.{
  get_kv_store, kv_store, put_tombstone, collect_tombstones, sync_store_status,
}
use elasticell_operator.PdClient
use elasticell_operator.PdClient.{
  Server, Client, EtcdMember, Member, MembersInfo, get_cluster, get_config, get_health, get_members,
  get_stores, StoresInfo, tombstones, get_tomb_stone_stores, then_ok,
}

abbrev name_and_id : Member → String × ℕ
name_and_id m = (m.name, m.member_id)

-- The caller of GetPDLeader reads only whether there was an error.
abbrev pub wired : Env → Server → Client → Env
wired env server client = record env {
  get_cluster = get_cluster;
  get_health = get_health server client;
  get_pd_leader = ok "";
  get_members = then_ok (get_members server client) (λ info. ok (map name_and_id info.members));
  get_stores = get_stores server client;
  get_tombstone_stores = get_tomb_stone_stores server client;
  get_config = get_config;
}

abbrev pub Down : String × KvStore → Type 0
Down (id, s) = s.state ≡ down

insert-Down :
    (id : String) (s : KvStore) (m : Dict KvStore)
    → s.state ≡ down
    → All Down m
    → All Down (insert id s m)
insert-Down id s [] h a = (h, tt)
insert-Down id s ((j, t) ∷ m) h a = ground (arith, insert-Down id s m h a.1)

abbrev InState1 : StoreInfo → Type 0
InState1 i = i.meta.state ≡ 1

tombstones-InState1 : (is : List StoreInfo) → All InState1 (tombstones is)
unfolding tombstones
tombstones-InState1 [] = tt
tombstones-InState1 (i ∷ is) = ground (arith, tombstones-InState1 is)

-- What the store manager makes of a store in state 1 is a store that is down.
put_tombstone-Down :
    (i : StoreInfo) (m : Dict KvStore)
    → i.meta.state ≡ 1
    → All Down m
    → All Down (put_tombstone (get_kv_store i) m)
unfolding get_kv_store
put_tombstone-Down i m h a = elim (Option-cases i.status) [
  | inl e ↦ rw e a
  | inr (s, e) ↦
      let k = kv_store i (StoreManager.head_of (split b':' i.meta.address)) s in
      let d : k.state ≡ down = ground arith in rw e (insert-Down k.id k m d a)
]

-- What the store manager makes of a store in state 1 is a store that is down.
collect_tombstones-Down :
    (is : List StoreInfo) (m : Dict KvStore)
    → All InState1 is
    → All Down m
    → All Down (collect_tombstones is m)
unfolding collect_tombstones
collect_tombstones-Down [] m h a = a
collect_tombstones-Down (i ∷ is) m h a =
    collect_tombstones-Down is _ h.1 (put_tombstone-Down i m h.0 a)

module _ (server : Server) (client : Client) where
  from_info :
      (r : Result StoresInfo) (ts : List StoreInfo)
      → PdClient.tombstones_of r ≡ ok ts
      → All InState1 ts
  from_info (ok info) ts h = let t = tombstones-InState1 info.stores in grind (arith, h)
  from_info (err e) ts h = ground arith

  from_body :
      (r : Result String) (ts : List StoreInfo)
      → then_ok r (λ body. PdClient.tombstones_of (server.decode_stores body)) ≡ ok ts
      → All InState1 ts
  from_body (ok body) ts h = from_info (server.decode_stores body) ts h
  from_body (err e) ts h = ground arith

  answered-InState1 :
      (ts : List StoreInfo) → get_tomb_stone_stores server client ≡ ok ts → All InState1 ts
  unfolding get_tomb_stone_stores
  answered-InState1 ts h = from_body _ ts h

module _ (env : Env) (set : StatefulSet) where
  recorded_tombstones :
      (w w' : World) (ts : List StoreInfo)
      → env.get_tombstone_stores ≡ ok ts
      → sync_store_status env set w ≡ (ok tt, w')
      → w'.cc.status.store.tombstone_stores ≡ collect_tombstones ts []
  unfolding sync_store_status is_upgrading_by
  recorded_tombstones w w' ts t h = ground arith

  tombstones_answered :
      (w w' : World) (e : Error)
      → env.get_tombstone_stores ≡ err e
      → ¬ (sync_store_status env set w ≡ (ok tt, w'))
  unfolding sync_store_status is_upgrading_by
  tombstones_answered w w' e t h = ground arith

module _ (env : Env) (server : Server) (client : Client) (set : StatefulSet) where
  answer-Down :
      (w w' : World) (r : Result (List StoreInfo))
      → get_tomb_stone_stores server client ≡ r
      → sync_store_status (wired env server client) set w ≡ (ok tt, w')
      → All Down w'.cc.status.store.tombstone_stores
  answer-Down w w' (ok ts) t h =
      rw (recorded_tombstones (wired env server client) set w w' ts t h)
        (collect_tombstones-Down ts [] (answered-InState1 server client ts t) tt)
  answer-Down w w' (err e) t h =
      absurd (tombstones_answered (wired env server client) set w w' e t h)

  -- With the client's answers, every store that a successful sync of the stores' status records as
  -- a tombstone is recorded as down, which is what the store manager takes its state for.
  pub sync_store_status-Down :
      (w w' : World)
      → sync_store_status (wired env server client) set w ≡ (ok tt, w')
      → All Down w'.cc.status.store.tombstone_stores
  sync_store_status-Down w w' h = answer-Down w w' (get_tomb_stone_stores server client) refl h

  -- With the client's answers, PD's status counts as synced after a sync that could list the pods
  -- exactly if etcd could be reached and listed its members, whoever leads PD.
  pub pd_synced_by_etcd :
      (w : World)
      → let listed = is_ok (is_upgrading_by (wired env server client) (pd_labels w.cc) set w).0 in
        let answered =
          not (is_some (server.new_cli client.endpoint))
          && is_ok (server.members client.endpoint) in
        let w' = (sync_pd_status (wired env server client) set w).1 in
        w'.cc.status.pd.synced ≡ (if listed then answered else w.cc.status.pd.synced)
  unfolding get_health
  pd_synced_by_etcd w = ground (arith, sync_pd_status_synced (wired env server client) set w)
