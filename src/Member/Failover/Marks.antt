-- ===== src/Member/Failover/Marks.antt =====
-- Which stores a failover marks as failed (store_failover.go).
use elasticell_operator.Base.{
  ℕ, ◌≡◌, ◌≢◌, ◌↔◌, ◌⊎◌, inl, inr, ◌<◌, ◌+◌, ap, sym, ◌∙◌, Any, any-Any, or-cases, or_left,
  or_right, String, Bool, true, false, ◌||◌, [], ◌∷◌, Dict, insert, any, arith, eq_iff, ◌==◌,
  lookup, has_key, ◌&&◌, Option, none, some,
}
use elasticell_operator.Base.Maps.{lookup-insert}
use elasticell_operator.Api.Cluster.{StoreState, down, is_down, KvStore, KvFailureStore}
use elasticell_operator.Member.Failover.{already_failed, is_lost, mark, mark_all, failure_of}

-- A store of the list is lost and runs in that pod.
abbrev lost_in : ℕ → ℕ → String → String × KvStore → Bool
lost_in now max_down pod_name (id, s) = is_lost now max_down s && s.pod_name == pod_name

-- The store has been down for longer than allowed, and runs in that pod.
abbrev pub LostIn : ℕ → ℕ → String → String × KvStore → Type 0
LostIn now max_down pod_name (id, s) =
    (s.state ≡ down)
    × (s.last_transition_time ≢ 0)
    × (s.last_transition_time + max_down < now)
    × (s.pod_name ≡ pod_name)

is_down_iff : (state : StoreState) → (is_down state ≡ true) ↔ (state ≡ down)
is_down_iff state = ground arith

lost_in_iff :
    (now max_down : ℕ) (p : String) (x : String × KvStore)
    → (lost_in now max_down p x ≡ true) ↔ LostIn now max_down p x
lost_in_iff now max_down p (id, s) = ground (arith, eq_iff s.pod_name p, is_down_iff s.state)

abbrev agrees : String → Option KvFailureStore → Bool
agrees pod_name none = true
agrees pod_name (some f) = f.pod_name == pod_name

-- The map of stores has distinct ids, and a failure recorded under a store's id is of its pod.
abbrev pub Consistent : Dict KvStore → Dict KvFailureStore → Type 0
Consistent [] failures = Unit
Consistent ((id, s) ∷ stores) failures =
    (has_key id stores ≡ false)
    × (agrees s.pod_name (lookup id failures) ≡ true)
    × Consistent stores failures

already_failed-insert :
    (p id : String) (f : KvFailureStore) (fs : Dict KvFailureStore)
    → agrees f.pod_name (lookup id fs) ≡ true
    → already_failed p (insert id f fs) ≡ (already_failed p fs || f.pod_name == p)
already_failed-insert p id f [] h = ground arith
already_failed-insert p id f ((j, g) ∷ fs) h = ground (
  arith,
  eq_iff j id,
  eq_iff g.pod_name f.pod_name,
  eq_iff g.pod_name p,
  eq_iff f.pod_name p,
  already_failed-insert p id f fs,
)

Consistent-insert :
    (id : String) (f : KvFailureStore) (stores : Dict KvStore) (fs : Dict KvFailureStore)
    → has_key id stores ≡ false
    → Consistent stores fs
    → Consistent stores (insert id f fs)
Consistent-insert id f [] fs h c = tt
Consistent-insert id f ((j, s) ∷ stores) fs h c =
    ground
      (arith, eq_iff j id, eq_iff id j, lookup-insert id j f fs, Consistent-insert id f stores fs)

mark_step :
    (now max_down : ℕ) (p id : String) (s : KvStore) (fs : Dict KvFailureStore)
    → agrees s.pod_name (lookup id fs) ≡ true
    → already_failed p (mark now max_down (id, s) fs)
      ≡ (already_failed p fs || lost_in now max_down p (id, s))
unfolding mark
mark_step now max_down p id s fs h = ground (
  arith,
  already_failed-insert p id (failure_of s) fs,
  eq_iff s.pod_name p,
  ap (λ q. already_failed q fs) {x = s.pod_name} {y = p},
)

mark-Consistent :
    (now max_down : ℕ) (id : String) (s : KvStore) (stores : Dict KvStore)
    (fs : Dict KvFailureStore)
    → has_key id stores ≡ false
    → Consistent stores fs
    → Consistent stores (mark now max_down (id, s) fs)
unfolding mark
mark-Consistent now max_down id s stores fs h c =
    ground (arith, Consistent-insert id (failure_of s) stores fs)

mark_all-any :
    (now max_down : ℕ) (p : String) (stores : Dict KvStore) (fs : Dict KvFailureStore)
    → Consistent stores fs
    → already_failed p (mark_all now max_down stores fs)
      ≡ (already_failed p fs || any (lost_in now max_down p) stores)
unfolding mark_all
mark_all-any now max_down p [] fs c = ground arith
mark_all-any now max_down p ((id, s) ∷ stores) fs c = ground (
  arith,
  mark_step now max_down p id s fs c.1,
  mark_all-any now max_down p stores (mark now max_down (id, s) fs)
      (mark-Consistent now max_down id s stores fs c.0 c.2),
)

-- A pod counts as failed after the failover exactly if it did before or runs one of the lost
-- stores: those that are down and have been so for longer than PD's limit. The stores have
-- distinct ids, and a failure recorded under a store's id is of that store's pod.
pub mark_all_failures :
    (now max_down : ℕ) (p : String) (stores : Dict KvStore) (fs : Dict KvFailureStore)
    → Consistent stores fs
    → (already_failed p (mark_all now max_down stores fs) ≡ true)
      ↔ ((already_failed p fs ≡ true) ⊎ Any (LostIn now max_down p) stores)
mark_all_failures now max_down p stores fs c =
    let some_lost =
      any-Any (lost_in now max_down p) (LostIn now max_down p) (lost_in_iff now max_down p)
        stores in
    let marked = mark_all-any now max_down p stores fs c in
    (
      (λ h. elim (or-cases (already_failed p fs) _ (sym marked ∙ h)) [
        | inl a ↦ inl a
        | inr l ↦ inr (some_lost.0 l)
      ]),
      (λ h. elim h [
        | inl a ↦ marked ∙ or_left _ _ a
        | inr l ↦ marked ∙ or_right _ _ (some_lost.1 l)
      ]),
    )
