-- ===== src/Tests/StoreRollouts.antt =====
-- The rolling update of two outdated stores that keep their leaders, pair of syncs by pair.
use elasticell_operator.Base.{
  ℕ, zero, suc, ◌≤◌, ◌<◌, ◌≡◌, refl, String, true, some, List, [], ◌∷◌, pos, arith, decimal,
}
use elasticell_operator.Api.Objects.{Pod, SetStatus, StatefulSet}
use elasticell_operator.Api.Cluster.{KvStore}
use elasticell_operator.Names.{store_pod_name}
use elasticell_operator.Effects.{World, Env, pod_at, request}
use elasticell_operator.Member.Rollout.{is_outdated}
use elasticell_operator.Member.Config.{template_equal}
use elasticell_operator.Member.StoreUpgrader.{
  get_store_by_ordinal, end_evict, begin_evict, upgrade_store_pod, store_loop, upgrade,
  ready_to_upgrade,
}
use elasticell_operator.Member.StoreUpgrader.Eviction.{Done}
use elasticell_operator.Member.StoreUpgrader.Progress.{CanReplace}
use elasticell_operator.Member.StoreUpgrader.Safety.{pod}
use elasticell_operator.Member.StoreUpgrader.Ends as Ends
use elasticell_operator.Member.StoreUpgrader.Ends.{
  at, Old, AllOld, Round, rolled, Rounds, start, more, store_rollout_ends,
}
use elasticell_operator.Tests.Data.{
  env, world, cluster, status, kv_store, set_named, set_status, pod_named,
}

abbrev old : StatefulSet
old = set_named "demo-store"

abbrev two : SetStatus
two = record set_status { replicas = pos 2 }

abbrev base : Env
base = record env { parse_time = λ s. some 0 }

-- Both stores have five leaders.
abbrev with_pods : List Pod → World
with_pods pods = record world {
  draft = old;
  pods = pods;
  cc = record cluster {
    status = record status {
      store = record (status.store) {
        stateful_set = some two;
        stores = ("1", kv_store "1" "demo-store-0" 5) ∷ ("2", kv_store "2" "demo-store-1" 5) ∷ [];
      };
    };
  };
}

abbrev revisions : String → String → List Pod
revisions a b = pod_named "demo-store-0" "store" a ∷ pod_named "demo-store-1" "store" b ∷ []

can :
    (t : ℕ) (pods : List Pod) (i : ℕ) (s : KvStore)
    → i < 2
    → get_store_by_ordinal (with_pods pods).cc i ≡ some s
    → is_outdated "new" (pod base (with_pods pods).cc "new" pods i) ≡ true
    → ((j : ℕ) → i < j → j < 2 → Done (at base t) (with_pods pods).cc "new" i (with_pods pods) j)
    → CanReplace (at base t) old (with_pods pods) i
unfolding template_equal pod_at
can t pods i s below known outdated above = record {
  n = 2;
  rev = "new";
  partition = pos 3;
  status = two;
  store = s;
  id = 3;
  pd_idle = refl;
  is_synced = refl;
  has_status = refl;
  has_replicas = refl;
  has_revision = refl;
  has_partition = refl;
  same_template = refl;
  accepts = λ calls c. refl;
  below = below;
  above = above;
  known = known;
  has_id = refl;
  outdated = outdated;
}

abbrev marked : List Pod → List Pod
marked pods = (upgrade (at base 100) old (with_pods pods)).1.pods

below_two : (P : ℕ → Type 0) → P 0 → P 1 → (j : ℕ) → j < 2 → P j
below_two P a b zero h = a
below_two P a b (suc zero) h = b
below_two P a b (suc (suc j)) h = absurd (omega arith)

-- The pods after each pair of syncs.
abbrev none_new : List Pod
none_new = revisions "old" "old"

abbrev one_new : List Pod
one_new = revisions "old" "new"

abbrev all_new : List Pod
all_new = revisions "new" "new"

above_one :
    (t : ℕ) (pods : List Pod) (j : ℕ)
    → 1 < j
    → j < 2
    → Done (at base t) (with_pods pods).cc "new" 1 (with_pods pods) j
above_one t pods j a b = absurd (omega arith)

ready_one :
    (t : ℕ) (pods : List Pod)
    → Done (at base t) (with_pods pods).cc "new" 0 (with_pods pods) 1
    → (j : ℕ) → 0 < j
    → j < 2
    → Done (at base t) (with_pods pods).cc "new" 0 (with_pods pods) j
ready_one t pods d zero a b = absurd (omega arith)
ready_one t pods d (suc zero) a b = d
ready_one t pods d (suc (suc j)) a b = absurd (omega arith)

first : Round base 2 "new" (with_pods none_new) (with_pods one_new)
unfolding get_store_by_ordinal pod_at store_pod_name decimal upgrade store_loop upgrade_store_pod
    end_evict begin_evict ready_to_upgrade request template_equal can
first =
    rolled 100 180000000101 1 old old (with_pods (marked none_new))
      (can 100 none_new 1 (kv_store "2" "demo-store-1" 5) (omega arith) refl refl
        (above_one 100 none_new))
      (can 180000000101 (marked none_new) 1 (kv_store "2" "demo-store-1" 5) (omega arith) refl refl
        (above_one 180000000101 (marked none_new)))
      refl refl refl (omega arith) (0, refl, omega arith)
      (λ p t found marked. ground (arith, found, marked))
      (λ replaced. (
        (λ j a b.
            below_two (λ j. 1 ≤ j → Ends.Done base 2 "new" (with_pods one_new) j)
              (λ h. absurd (omega arith)) (λ h. refl) j b a),
        (λ j a o.
            below_two (λ j. j < 1 → Old base 2 "new" (with_pods one_new) j)
              (λ h. (refl, (kv_store "1" "demo-store-0" 5, refl))) (λ h. absurd (omega arith)) j
              (omega arith) a),
      ))

second : Round base 2 "new" (with_pods one_new) (with_pods all_new)
unfolding get_store_by_ordinal pod_at store_pod_name decimal upgrade store_loop upgrade_store_pod
    end_evict begin_evict ready_to_upgrade request template_equal can
second =
    rolled 100 180000000101 0 old old (with_pods (marked one_new))
      (can 100 one_new 0 (kv_store "1" "demo-store-0" 5) (omega arith) refl refl
        (ready_one 100 one_new (record { ready = refl; has_id = (3, refl) })))
      (can 180000000101 (marked one_new) 0 (kv_store "1" "demo-store-0" 5) (omega arith) refl refl
        (ready_one 180000000101 (marked one_new) (record { ready = refl; has_id = (3, refl) })))
      refl refl refl (omega arith) (0, refl, omega arith)
      (λ p t found marked. ground (arith, found, marked))
      (λ replaced. (
        (λ j a b.
            below_two (λ j. 0 ≤ j → Ends.Done base 2 "new" (with_pods all_new) j) (λ h. refl)
              (λ h. refl) j b a),
        (λ j a o. absurd (omega arith)),
      ))

all_old : AllOld base 2 "new" (with_pods none_new)
unfolding get_store_by_ordinal pod_at store_pod_name decimal
all_old =
    below_two (Old base 2 "new" (with_pods none_new)) (refl, (kv_store "1" "demo-store-0" 5, refl))
      (refl, (kv_store "2" "demo-store-1" 5, refl))

store_rollout_ends_example : Ends.Done base 2 "new" (with_pods all_new) 1
store_rollout_ends_example =
    store_rollout_ends base 2 "new" (with_pods none_new) (with_pods all_new) all_old
      (more (more start first) second) 1 (omega arith)
