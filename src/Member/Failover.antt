-- ===== src/Member/Failover.antt =====
-- pkg/manager/member/store_failover.go. The stores are taken in the order of the list: Go takes
-- them in any order, which matters only if two of them share a pod name.
pub mod Marks
use elasticell_operator.Base.{
  ℕ, ◌+◌, String, Bool, true, false, ◌&&◌, List, [], ◌∷◌, Dict, insert, ltb, nat_eq, not, any, ◌==◌,
  if◌then◌else◌,
}
use elasticell_operator.Api.Cluster.{KvStore, KvFailureStore, is_down}
use elasticell_operator.Effects.{World, Env, M, lift, gets, modify, ◌>>=◌}

abbrev pub fails_pod : String → String × KvFailureStore → Bool
fails_pod pod_name (id, f) = f.pod_name == pod_name

abbrev pub already_failed : String → Dict KvFailureStore → Bool
already_failed pod_name failures = any (fails_pod pod_name) failures

-- Down since before the deadline. The zero time is no time.
abbrev pub is_lost : ℕ → ℕ → KvStore → Bool
is_lost now max_down s =
    not (nat_eq s.last_transition_time 0)
    && is_down s.state
    && ltb (s.last_transition_time + max_down) now

abbrev failure_of : KvStore → KvFailureStore
failure_of s = record { pod_name = s.pod_name; store_id = s.id }

-- The body of the loop, and the loop.
unfoldable pub mark : ℕ → ℕ → String × KvStore → Dict KvFailureStore → Dict KvFailureStore
mark now max_down (id, s) failures =
    if is_lost now max_down s && not (already_failed s.pod_name failures)
    then insert id (failure_of s) failures
    else failures

unfoldable pub mark_all : ℕ → ℕ → Dict KvStore → Dict KvFailureStore → Dict KvFailureStore
mark_all now max_down [] failures = failures
mark_all now max_down (s ∷ stores) failures =
    mark_all now max_down stores (mark now max_down s failures)

abbrev set_failures : Dict KvFailureStore → World → World
set_failures failures w = record w {
  cc = record (w.cc) {
    status = record (w.cc.status) {
      store = record (w.cc.status.store) { failure_stores = failures };
    };
  };
}

unfoldable pub failover : Env → M (Unit {0})
failover env = do
  max_down ← lift env.get_config
  status ← gets (λ w. w.cc.status.store)
  modify (set_failures (mark_all env.now max_down status.stores status.failure_stores))
