-- ===== src/Tests/Pd.antt =====
-- The client of PD against a PD with three members, a store that is down and a tombstone.
use elasticell_operator.Base.{ℕ, String, true, ◌≡◌, ◌⊎◌, refl, none, some, [], ◌∷◌, pos}
use elasticell_operator.Base.Lists.{All}
use elasticell_operator.Api.Objects.{StatefulSet}
use elasticell_operator.Effects.{Error, ok, err, World, StoreInfo, pods_with}
use elasticell_operator.Member.Config.{stateful_set_is_upgrading}
use elasticell_operator.Member.Revisions.{is_upgrading_by}
use elasticell_operator.Member.PdManager.Status.{is_ok}
use elasticell_operator.Member.StoreManager.{sync_store_status}
use elasticell_operator.PdClient.{
  Server, Client, EtcdMember, Member, delete_url, new_pd_client, get_store, delete_store,
  get_body_ok, get_stores, get_tomb_stone_stores, store_url, trim_prefix,
}
use elasticell_operator.PdClient.Stores.{delete_store_cases}
use elasticell_operator.PdClient.Wired.{wired, Down, sync_store_status-Down}
use elasticell_operator.Tests.Data.{env, world, set_named}

abbrev store_in : ℕ → ℕ → StoreInfo
store_in id state = record {
  meta = record {
    id = id;
    address = "demo-store-1.demo-store-peer:10800";
    state = state;
    labels = [];
  };
  status = some (record { leader_count = 3; last_heartbeat_ts = pos 7 });
}

abbrev member : ℕ → String → EtcdMember
member id name = record { id = id; name = name; peer_urls = []; client_urls = [] }

abbrev server : Server
server = record {
  http_get = λ url. ok (record { status_code = 200; body = ok "{}" });
  new_request = λ url. none;
  http_delete = λ url. ok (record { status_code = 404; body = ok "" });
  decode_stores = λ body. ok (record {
    code = pos 0;
    err_text = "";
    stores = store_in 1 0 ∷ store_in 2 1 ∷ store_in 3 2 ∷ [];
  });
  decode_store = λ body. ok (record { code = pos 0; err_text = ""; store = some (store_in 1 0) });
  new_cli = λ endpoint. none;
  members = λ endpoint. ok (member 7 "demo-pd-0" ∷ member 8 "demo-pd-1" ∷ []);
  remove = λ endpoint id. none;
  get_key = λ endpoint. none;
}

abbrev client : Client
client = record { url = "http://demo-pd.prod:2379"; endpoint = "demo-pd.prod:2379" }

-- The address without its scheme is where etcd is asked.
made_client : new_pd_client "http://demo-pd.prod:2379" ≡ client
unfolding new_pd_client trim_prefix
made_client = refl

abbrev set : StatefulSet
set = set_named "demo-store"

abbrev after : World
after = (sync_store_status (wired env server client) set world).1

sync_store_status-Down_example : All Down after.cc.status.store.tombstone_stores
unfolding sync_store_status is_upgrading_by get_tomb_stone_stores get_stores get_body_ok pods_with
    stateful_set_is_upgrading
sync_store_status-Down_example = sync_store_status-Down env server client set world after refl

abbrev pd_set : StatefulSet
pd_set = set_named "demo-pd"

abbrev first_member : Member
first_member = record { member_id = 7; name = "demo-pd-0"; peer_urls = [] }

abbrev second_member : Member
second_member = record { member_id = 8; name = "demo-pd-1"; peer_urls = [] }

delete_store_cases_example :
    let (r, now) = delete_store server client 3 [] in
    let url = store_url server client 3 in
    ((e : Error) × (now ≡ []) × (r ≡ err e) × (get_store server client 3 ≡ err e))
    ⊎ ((e : Error) × (now ≡ [])
        × (r ≡ err e)
        × (is_ok (get_store server client 3) ≡ true)
        × (server.new_request url ≡ some e))
    ⊎ ((now ≡ delete_url url ∷ [])
        × (is_ok (get_store server client 3) ≡ true)
        × (server.new_request url ≡ none)
        × (is_ok r ≡ true))
delete_store_cases_example = delete_store_cases server client 3 []
