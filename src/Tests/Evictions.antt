-- ===== src/Tests/Evictions.antt =====
-- An outdated pod whose store keeps its leaders is replaced after three minutes.
use elasticell_operator.Base.{ℕ, zero, suc, ◌<◌, ◌⊎◌, refl, some, [], ◌∷◌, pos, arith, decimal}
use elasticell_operator.Api.Objects.{StatefulSet}
use elasticell_operator.Names.{store_pod_name}
use elasticell_operator.Effects.{World, Env, pod_at, request}
use elasticell_operator.Member.Config.{template_equal}
use elasticell_operator.Member.StoreUpgrader.{
  get_store_by_ordinal, end_evict, begin_evict, upgrade_store_pod, store_loop, upgrade,
  ready_to_upgrade,
}
use elasticell_operator.Member.StoreUpgrader.Eviction.{Done}
use elasticell_operator.Member.StoreUpgrader.Progress.{CanReplace, Replaced, evicted_is_replaced}
use elasticell_operator.Tests.Data.{env, world, cluster, status, kv_store, set_named, set_status}

abbrev old : StatefulSet
old = set_named "demo-store"

-- The store of ordinal 1 has five leaders.
abbrev busy : World
busy = record world {
  draft = old;
  cc = record cluster {
    status = record status {
      store = record (status.store) {
        stores =
            ("1", kv_store "1" "demo-store-0" 0)
            ∷ ("2", kv_store "2" "demo-store-1" 5)
            ∷ ("3", kv_store "3" "demo-store-2" 0)
            ∷ [];
      };
    };
  };
}

abbrev after_begin : World
after_begin = record busy { pods = (upgrade env old busy).1.pods }

-- More than three minutes later. The text of the time has no part below a second.
abbrev later : Env
later = record env { now = 180000000101; parse_time = λ s. some 0 }

only_two : (P : ℕ → Type 0) → P 2 → (j : ℕ) → 1 < j → j < 3 → P j
only_two P h zero a b = absurd (omega arith)
only_two P h (suc zero) a b = absurd (omega arith)
only_two P h (suc (suc zero)) a b = h
only_two P h (suc (suc (suc j))) a b = absurd (omega arith)

can_begin : CanReplace env old busy 1
unfolding template_equal get_store_by_ordinal pod_at store_pod_name decimal
can_begin = record {
  n = 3;
  rev = "new";
  partition = pos 3;
  status = set_status;
  store = kv_store "2" "demo-store-1" 5;
  id = 3;
  pd_idle = refl;
  is_synced = refl;
  has_status = refl;
  has_replicas = refl;
  has_revision = refl;
  has_partition = refl;
  same_template = refl;
  accepts = λ calls c. refl;
  below = omega arith;
  above = only_two (Done env busy.cc "new" 1 busy) (record { ready = refl; has_id = (3, refl) });
  known = refl;
  has_id = refl;
  outdated = refl;
}

can_end : CanReplace later old after_begin 1
unfolding template_equal get_store_by_ordinal pod_at store_pod_name decimal upgrade store_loop
    upgrade_store_pod end_evict begin_evict ready_to_upgrade request
can_end = record {
  n = 3;
  rev = "new";
  partition = pos 3;
  status = set_status;
  store = kv_store "2" "demo-store-1" 5;
  id = 3;
  pd_idle = refl;
  is_synced = refl;
  has_status = refl;
  has_replicas = refl;
  has_revision = refl;
  has_partition = refl;
  same_template = refl;
  accepts = λ calls c. refl;
  below = omega arith;
  above =
      only_two (Done later busy.cc "new" 1 after_begin)
        (record { ready = refl; has_id = (3, refl) });
  known = refl;
  has_id = refl;
  outdated = refl;
}

-- The first sync marks the pod, the second replaces it.
evicted_is_replaced_example : Replaced env old busy 1 ⊎ Replaced later old after_begin 1
unfolding template_equal get_store_by_ordinal pod_at store_pod_name decimal upgrade store_loop
    upgrade_store_pod end_evict begin_evict ready_to_upgrade request
evicted_is_replaced_example =
    evicted_is_replaced env later old old busy after_begin 1 can_begin can_end refl (omega arith)
      (0, refl, omega arith) (λ p t found marked. ground (arith, found, marked))
