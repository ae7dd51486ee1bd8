-- ===== src/PdClient.antt =====
-- pkg/controller/pd_control.go and etcd_client.go: the client of PD, which asks its HTTP interface
-- about stores and its etcd about members.
pub mod Members
pub mod Stores
pub mod Wired
use Prim.Native.String.{◌++◌}
use Prim.Native.String
use Prim.Native.Char.{code}
use elasticell_operator.Base.{
  ℕ, String, Bool, true, false, ◌||◌, Option, none, some, List, [], ◌∷◌, map, ℤ, pos, eqb_ℤ, leb,
  nat_eq, ◌==◌, any, select, if◌then◌else◌, decimal, Dict, lookup, insert,
}
use elasticell_operator.Api.Cluster.{CellCluster}
use elasticell_operator.Effects.{
  Error, failure, error_response, error_code, store_not_deleted, nil_pointer, Result, ok, err,
  MemberHealth, StoreInfo, find,
}

abbrev pub max_store_down_time_duration : ℕ
max_store_down_time_duration = 3600000000000

abbrev pub tomb_stone_store_state : ℕ
tomb_stone_store_state = 1

abbrev pub stores_prefix : String
stores_prefix = "pd/api/v1/stores"

-- A member as etcd lists it, PdMember and MembersInfo.
pub record EtcdMember : Type 0 where
  pub id : ℕ
  pub name : String
  pub peer_urls : List String
  pub client_urls : List String

pub record Member : Type 0 where
  pub member_id : ℕ
  pub name : String
  pub peer_urls : List String

pub record MembersInfo : Type 0 where
  pub members : List Member
  pub leader : Member

-- The decoded answers about all stores and about one.
pub record StoresInfo : Type 0 where
  pub code : ℤ
  pub err_text : String
  pub stores : List StoreInfo

pub record OneStore : Type 0 where
  pub code : ℤ
  pub err_text : String
  pub store : Option StoreInfo

pub record Response : Type 0 where
  pub status_code : ℕ
  pub body : Result String

-- net/http, encoding/json and clientv3, as the client calls them.
pub record Server : Type 0 where
  pub http_get : String → Result Response
  pub new_request : String → Option Error
  pub http_delete : String → Result Response
  pub decode_stores : String → Result StoresInfo
  pub decode_store : String → Result OneStore
  pub new_cli : String → Option Error
  pub members : String → Result (List EtcdMember)
  pub remove : String → ℕ → Option Error
  pub get_key : String → Option Error

pub record Client : Type 0 where
  pub url : String
  pub endpoint : String

-- The requests that change PD, newest first.
pub data Request : Type 0 where
  delete_url : String → Request
  remove_id : ℕ → Request

-- `strings.TrimPrefix`.
strip : String → String → Option String
strip String.[] s = some s
strip (String.◌∷◌ c p) String.[] = none
strip (String.◌∷◌ c p) (String.◌∷◌ d s) =
    let rest = strip p s in if nat_eq (code c) (code d) then rest else none

abbrev or_whole : String → Option String → String
or_whole s none = s
or_whole s (some t) = t

unfoldable pub trim_prefix : String → String → String
unfolding strip
trim_prefix s p = or_whole s (strip p s)

unfoldable pub new_pd_client : String → Client
new_pd_client url = record { url = url; endpoint = trim_prefix url "http://" }

unfoldable pub pd_client_key : String → String → String
pd_client_key ns name = name ++ "." ++ ns

unfoldable pub pd_client_url : String → String → String
pd_client_url ns name = "http://" ++ name ++ "-pd." ++ ns ++ ":2379"

abbrev kept_client : String → String → Dict Client → Option Client → Client × Dict Client
kept_client ns name clients (some c) = (c, clients)
kept_client ns name clients none =
    let c = new_pd_client (pd_client_url ns name) in (c, insert (pd_client_key ns name) c clients)

-- The clients are made once per cluster; the mutex makes each call one step.
unfoldable pub get_pd_client : CellCluster → Dict Client → Client × Dict Client
get_pd_client cluster clients =
    kept_client cluster.namespace cluster.name clients
      (lookup (pd_client_key cluster.namespace cluster.name) clients)

abbrev pub then_ok : {A B : Type 0} → Result A → (A → Result B) → Result B
then_ok (err e) f = err e
then_ok (ok a) f = f a

abbrev pub unless_error : {A : Type 0} → Option Error → Result A → Result A
unless_error (some e) r = err e
unless_error none r = r

-- The stores in the state that is taken for tombstone.
unfoldable pub tombstones : List StoreInfo → List StoreInfo
tombstones [] = []
tombstones (s ∷ stores) =
    let rest = tombstones stores in
    if nat_eq s.meta.state tomb_stone_store_state then s ∷ rest else rest

abbrev pub tombstones_of : Result StoresInfo → Result (List StoreInfo)
tombstones_of (err e) = err e
tombstones_of (ok info) =
    if eqb_ℤ info.code (pos 0) then ok (tombstones info.stores) else err (failure error_code)

module _ (server : Server) (client : Client) where
  -- The error of closing the body is written to a variable that was returned already.
  unfoldable pub get_body_ok : String → Result String
  get_body_ok url =
      then_ok (server.http_get url)
        λ res. if leb 400 res.status_code then err (failure error_response) else res.body

  abbrev pub stores_url : String
  stores_url = client.url ++ "/" ++ stores_prefix

  abbrev pub store_url : ℕ → String
  store_url id = stores_url ++ "/" ++ decimal id

  unfoldable pub get_stores : Result (List StoreInfo)
  get_stores = then_ok (get_body_ok stores_url) λ body.
      then_ok (server.decode_stores body)
        λ info. if eqb_ℤ info.code (pos 0) then ok info.stores else err (failure error_code)

  unfoldable pub get_tomb_stone_stores : Result (List StoreInfo)
  get_tomb_stone_stores =
      then_ok (get_body_ok stores_url) λ body. tombstones_of (server.decode_stores body)

  unfoldable pub get_store : ℕ → Result (Option StoreInfo)
  get_store id = then_ok (get_body_ok (store_url id)) λ body.
      then_ok (server.decode_store body)
        λ info. if eqb_ℤ info.code (pos 0) then ok info.store else err (failure error_code)

  -- Deleting a store that PD does not find any more is a success too.
  abbrev deletion : Response → Result (Unit {0})
  deletion res =
      if nat_eq res.status_code 200 || nat_eq res.status_code 404
      then ok tt
      else then_ok res.body (λ body. err (failure store_not_deleted))

  abbrev send_delete : String → Option Error → List Request → Result (Unit {0}) × List Request
  send_delete url (some e) sent = (err e, sent)
  send_delete url none sent = (then_ok (server.http_delete url) deletion, delete_url url ∷ sent)

  abbrev delete_known :
      ℕ → Result (Option StoreInfo) → List Request → Result (Unit {0}) × List Request
  delete_known id (err e) sent = (err e, sent)
  delete_known id (ok s) sent = send_delete (store_url id) (server.new_request (store_url id)) sent

  unfoldable pub delete_store : ℕ → List Request → Result (Unit {0}) × List Request
  delete_store id sent = delete_known id (get_store id) sent

  -- The first member counts as the leader; an empty list has none, and the code panics.
  abbrev member_of : EtcdMember → Member
  member_of m = record { member_id = m.id; name = m.name; peer_urls = m.peer_urls }

  abbrev members_info : List Member → Result MembersInfo
  members_info [] = err nil_pointer
  members_info (m ∷ ms) = ok (record { members = m ∷ ms; leader = m })

  unfoldable pub member_list : Result MembersInfo
  member_list =
      unless_error (server.new_cli client.endpoint)
        (then_ok (server.members client.endpoint) λ ms. members_info (map member_of ms))

  unfoldable pub get_members : Result MembersInfo
  get_members = member_list

  abbrev outcome : Option Error → Result (Unit {0})
  outcome none = ok tt
  outcome (some e) = err e

  abbrev remove_with : Option Error → ℕ → List Request → Result (Unit {0}) × List Request
  remove_with (some e) id sent = (err e, sent)
  remove_with none id sent = (outcome (server.remove client.endpoint id), remove_id id ∷ sent)

  unfoldable pub member_remove_by_id : ℕ → List Request → Result (Unit {0}) × List Request
  member_remove_by_id id sent = remove_with (server.new_cli client.endpoint) id sent

  abbrev remove_if : Bool → ℕ → List Request → Result (Unit {0}) × List Request
  remove_if true id sent = member_remove_by_id id sent
  remove_if false id sent = (ok tt, sent)

  abbrev remove_id_from : Result MembersInfo → ℕ → List Request → Result (Unit {0}) × List Request
  remove_id_from (err e) id sent = (err e, sent)
  remove_id_from (ok info) id sent =
      remove_if (any (λ m. nat_eq m.member_id id) info.members) id sent

  unfoldable pub delete_member_by_id : ℕ → List Request → Result (Unit {0}) × List Request
  delete_member_by_id id sent = remove_id_from member_list id sent

  abbrev remove_found : Option Member → List Request → Result (Unit {0}) × List Request
  remove_found none sent = (ok tt, sent)
  remove_found (some m) sent = member_remove_by_id m.member_id sent

  abbrev remove_named :
      Result MembersInfo → String → List Request → Result (Unit {0}) × List Request
  remove_named (err e) name sent = (err e, sent)
  remove_named (ok info) name sent = remove_found (find (λ m. m.name == name) info.members) sent

  unfoldable pub delete_member : String → List Request → Result (Unit {0}) × List Request
  delete_member name sent = remove_named get_members name sent

  -- Whether the key `health` can be read at an address.
  unfoldable pub get_kv : String → Bool
  get_kv endpoint = elim (server.new_cli endpoint) [
    | some e ↦ false
    | none ↦ elim (server.get_key endpoint) [ some e ↦ false | none ↦ true ]
  ]

  abbrev health_at : List String → Bool
  health_at [] = false
  health_at (url ∷ urls) = get_kv url

  abbrev pub member_health : EtcdMember → MemberHealth
  member_health m = record {
    name = m.name;
    member_id = m.id;
    client_urls = m.client_urls;
    health = health_at m.client_urls;
  }

  unfoldable pub get_health : Result (List MemberHealth)
  get_health =
      unless_error (server.new_cli client.endpoint)
        (then_ok (server.members client.endpoint) λ ms. ok (map member_health ms))

-- What is not implemented: constant answers, and requests that do nothing.
abbrev pub get_config : Result ℕ
get_config = ok max_store_down_time_duration

abbrev pub get_cluster : Result String
get_cluster = ok "elasticell-cluster-demo"

abbrev pub set_store_labels : ℕ → Dict String → Result Bool
set_store_labels id labels = ok true

abbrev pub begin_evict_leader : ℕ → List Request → Result (Unit {0}) × List Request
begin_evict_leader id sent = (ok tt, sent)

abbrev pub end_evict_leader : ℕ → List Request → Result (Unit {0}) × List Request
end_evict_leader id sent = (ok tt, sent)

abbrev pub get_evict_leader_schedulers : Result (List String)
get_evict_leader_schedulers = ok []

abbrev pub get_pd_leader : Result (Option Member)
get_pd_leader = ok none

abbrev pub transfer_pd_leader : String → List Request → Result (Unit {0}) × List Request
transfer_pd_leader name sent = (ok tt, sent)
