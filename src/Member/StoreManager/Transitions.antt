-- ===== src/Member/StoreManager/Transitions.antt =====
-- The stores in the cluster's status (syncCellClusterStatus of store_member_manager.go).
use elasticell_operator.Base.{
  ℕ, ◌⊎◌, ◌≢◌, ◌≡◌, Option, none, some, List, [], ◌∷◌, Dict, String, arith, lookup, ◌==◌, eq_iff,
  if◌then◌else◌,
}
use elasticell_operator.Base.Maps.{lookup-insert}
use elasticell_operator.Api.Cluster.{KvStore}
use elasticell_operator.Effects.{StoreInfo}
use elasticell_operator.Member.StoreManager.{put_store, collect_stores, get_kv_store, with_times}

abbrev newer : String → Option KvStore → Option KvStore → Option KvStore
newer id none found = found
newer id (some s) found = if s.id == id then some s else found

-- The last report of a list about the store of an id; those without a status are passed over.
abbrev pub last_store : String → List StoreInfo → Option KvStore → Option KvStore
last_store id [] found = found
last_store id (i ∷ is) found = last_store id is (newer id (get_kv_store i) found)

abbrev pub recorded : ℕ → Dict KvStore → Option KvStore → Option KvStore
recorded now old none = none
recorded now old (some s) = some (with_times now (lookup s.id old) s)

-- `put_store` records exactly what `newer` picks.
put_store-lookup :
    (now : ℕ) (old : Dict KvStore) (id : String) (s : Option KvStore) (stores : Dict KvStore)
    (found : Option KvStore)
    → lookup id stores ≡ recorded now old found
    → lookup id (put_store now old s stores) ≡ recorded now old (newer id s found)
put_store-lookup now old id none stores found h = h
put_store-lookup now old id (some s) stores found h =
    ground
      (arith, eq_iff s.id id, lookup-insert s.id id (with_times now (lookup s.id old) s) stores)

-- After the loop over PD's reports the status names a store exactly when some report with a status
-- does, and what it says of the store is what the last of these reports says, with the times that
-- `with_times` takes over from the store of that id in the earlier status.
pub collect_stores-last_store :
    (now : ℕ) (old : Dict KvStore) (id : String) (is : List StoreInfo) (stores : Dict KvStore)
    (found : Option KvStore)
    → lookup id stores ≡ recorded now old found
    → lookup id (collect_stores now old is stores) ≡ recorded now old (last_store id is found)
unfolding collect_stores
collect_stores-last_store now old id [] stores found h = h
collect_stores-last_store now old id (i ∷ is) stores found h =
    collect_stores-last_store now old id is _ _
      (put_store-lookup now old id (get_kv_store i) stores found h)

-- A store's recorded state and the time of its last change always fit: the time is the one before
-- exactly if the store was known in the same state, or the present is that time too.
pub with_times_cases :
    (now : ℕ) (old s : KvStore)
    → let new = with_times now (some old) s in
      ((new.state ≡ old.state) × (new.last_transition_time ≡ old.last_transition_time))
      ⊎ ((new.state ≢ old.state) × (new.last_transition_time ≡ now))
unfolding with_times
with_times_cases now old s = ground arith
