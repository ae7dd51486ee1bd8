-- ===== src/Tests/Replicas.antt =====
-- A sync of the whole cluster, in which all that exists is to be updated.
use elasticell_operator.Base.{
  ◌⊎◌, refl, ℕ, String, false, true, some, [], ◌∷◌, pos, ◌≡◌, List, ◌++◌,
}
use elasticell_operator.Names.{pd_member_name}
use elasticell_operator.Effects.{ok, World, Env, StoreInfo, MemberHealth}
use elasticell_operator.Member.Update.Asked.{Ask, asked}
use elasticell_operator.Control.{update_cell_cluster}
use elasticell_operator.Control.Replicas.Chain.{PdAsks, StoreAsks, ProxyAsks}
use elasticell_operator.Control.Replicas.{sync_replicas}
use elasticell_operator.Control.Replicas.Runs.{
  Reach, here, next, synced, changed, run_keeps_pd_replicas,
}
use elasticell_operator.Tests.Data.{env, world, cluster, member_spec}

abbrev healthy : String → ℕ → MemberHealth
healthy name id = record { name = name; member_id = id; client_urls = []; health = true }

abbrev store_at : ℕ → String → StoreInfo
store_at id address = record {
  meta = record { id = id; address = address; state = 0; labels = [] };
  status = some (record { leader_count = 0; last_heartbeat_ts = pos 0 });
}

-- PD and the stores are healthy, and every StatefulSet differs from the wanted one.
abbrev busy : Env
busy = record env {
  eq_replicas = λ a b. false;
  get_health = ok (healthy "demo-pd-0" 1 ∷ healthy "demo-pd-1" 2 ∷ healthy "demo-pd-2" 3 ∷ []);
  get_stores = ok (
      store_at 1 "demo-store-0.demo-store-peer:10800"
      ∷ store_at 2 "demo-store-1.demo-store-peer:10800"
      ∷ store_at 3 "demo-store-2.demo-store-peer:10800"
      ∷ []);
}

-- Five stores are wanted.
abbrev growing : World
growing = record world {
  cc = record cluster {
    spec = record (cluster.spec) { store = record member_spec { replicas = pos 5 } };
  };
}

abbrev asked_then : List Ask
asked_then = asked (update_cell_cluster busy growing).1.calls

sync_replicas_example :
    (p s x : List Ask) × (asked_then ≡ x ++ (s ++ (p ++ asked growing.calls)))
    × PdAsks busy growing p
    × StoreAsks busy growing s
    × ProxyAsks busy growing x
sync_replicas_example = sync_replicas busy growing

-- After a sync five replicas of PD are wanted.
abbrev grown : World
grown =
    let v = (update_cell_cluster busy growing).1 in
    record v {
      cc = record (v.cc) {
        spec = record (v.cc.spec) { pd = record member_spec { replicas = pos 5 } };
      };
    }

abbrev run : Reach growing grown
run = next (next here (synced busy)) (changed grown refl)

run_keeps_pd_replicas_example :
    (p s x : List Ask) × (asked (update_cell_cluster busy grown).1.calls
      ≡ x ++ (s ++ (p ++ asked grown.calls)))
    × ((p ≡ []) ⊎ (p ≡ (grown.cc.namespace, pd_member_name grown.cc.name, pos 3) ∷ []))
    × StoreAsks busy grown s
    × ProxyAsks busy grown x
unfolding pd_member_name
run_keeps_pd_replicas_example = run_keeps_pd_replicas growing grown (pos 3) busy run refl
