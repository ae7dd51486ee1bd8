-- ===== src/Scheduler/Ha/Counts.antt =====
-- How the pods of the nodes are counted, and which nodes have fewest (ha.go).
use elasticell_operator.Base.{
  Option-cases, inl, inr, ℕ, zero, suc, ◌≡◌, refl, Bool, true, false, ◌&&◌, ◌||◌, not, Option, none,
  some, List, [], ◌∷◌, ◌++◌, Dict, String, lookup, insert, has_key, any, ◌==◌, eq_iff, arith,
}
use elasticell_operator.Base.Maps.{lookup-insert}
use elasticell_operator.Api.Objects.{Pod, Node}
use elasticell_operator.Scheduler.Ha.{node_map, put_pod, put_pods, min_node_names}

abbrev is_nil : List String → Bool
is_nil [] = true
is_nil (x ∷ xs) = false

abbrev pub free_in : Option (List String) → Bool
free_in none = false
free_in (some pods) = is_nil pods

abbrev keys_differ : Dict (List String) → Bool
keys_differ [] = true
keys_differ ((k, v) ∷ m) = not (has_key k m) && keys_differ m

abbrev pub elem : String → List String → Bool
elem name names = any (λ n. name == n) names

-- The minimum is not set, or 0, as no node with a pod is taken.
abbrev low : Option ℕ → Bool
low none = true
low (some zero) = true
low (some (suc n)) = false

any-append :
    (name : String) (xs ys : List String) → elem name (xs ++ ys) ≡ (elem name xs || elem name ys)
any-append name [] ys = refl
any-append name (x ∷ xs) ys = ground (arith, any-append name xs ys)

free-without_key :
    (name : String) (m : Dict (List String))
    → has_key name m ≡ false
    → free_in (lookup name m) ≡ false
free-without_key name m h = ground arith

pub min_node_names-elem :
    (name : String) (m : Dict (List String)) (min : Option ℕ) (found : List String)
    → keys_differ m ≡ true
    → low min ≡ true
    → elem name (min_node_names min found m) ≡ (elem name found || free_in (lookup name m))
unfolding min_node_names
min_node_names-elem name [] min found u l = ground arith
min_node_names-elem name ((k, []) ∷ m) none found u l = ground (
  arith,
  eq_iff name k,
  eq_iff k name,
  any-append name found (k ∷ []),
  min_node_names-elem name m (some 0) (found ++ (k ∷ [])),
)
min_node_names-elem name ((k, []) ∷ m) (some min) found u l = ground (
  arith,
  eq_iff name k,
  eq_iff k name,
  any-append name found (k ∷ []),
  min_node_names-elem name m (some min) (found ++ (k ∷ [])),
)
min_node_names-elem name ((k, p ∷ ps) ∷ m) min found u l = ground (
  arith,
  eq_iff name k,
  eq_iff k name,
  free-without_key name m,
  min_node_names-elem name m min found,
)

insert-differ :
    (k : String) (v : List String) (m : Dict (List String))
    → keys_differ m ≡ true
    → keys_differ (insert k v m) ≡ true
insert-differ k v [] h = refl
insert-differ k v ((j, w) ∷ m) h =
    ground (arith, eq_iff j k, eq_iff k j, lookup-insert k j v m, insert-differ k v m)

pub node_map-differ :
    (nodes : List Node) (m : Dict (List String))
    → keys_differ m ≡ true
    → keys_differ (node_map nodes m) ≡ true
unfolding node_map
node_map-differ [] m h = h
node_map-differ (node ∷ nodes) m h =
    node_map-differ nodes (insert node.name [] m) (insert-differ node.name [] m h)

put_pod-differ :
    (pod : Pod) (m : Dict (List String)) → keys_differ m ≡ true → keys_differ (put_pod pod m) ≡ true
put_pod-differ pod m h = elim (Option-cases (lookup pod.node_name m)) [
  | inl e ↦ ground arith
  | inr (pods, e) ↦ ground (arith, insert-differ pod.node_name (pods ++ (pod.name ∷ [])) m h)
]

pub put_pods-differ :
    (pods : List Pod) (m : Dict (List String))
    → keys_differ m ≡ true
    → keys_differ (put_pods pods m) ≡ true
unfolding put_pods
put_pods-differ [] m h = h
put_pods-differ (pod ∷ pods) m h = put_pods-differ pods (put_pod pod m) (put_pod-differ pod m h)

-- A pod counts on a node if it was given that node.
abbrev pub runs_on : String → Pod → Bool
runs_on name pod = not (pod.node_name == "") && pod.node_name == name

append-not_nil : (xs : List String) (x : String) → is_nil (xs ++ (x ∷ [])) ≡ false
append-not_nil [] x = refl
append-not_nil (y ∷ xs) x = refl

put_pod-free :
    (name : String) (pod : Pod) (m : Dict (List String))
    → free_in (lookup name (put_pod pod m)) ≡ (free_in (lookup name m) && not (runs_on name pod))
put_pod-free name pod m = elim (Option-cases (lookup pod.node_name m)) [
  | inl e ↦ ground (arith, eq_iff pod.node_name name)
  | inr (pods, e) ↦ ground (
    arith,
    eq_iff pod.node_name name,
    append-not_nil pods pod.name,
    lookup-insert pod.node_name name (pods ++ (pod.name ∷ [])) m,
  )
]

pub put_pods-free :
    (name : String) (pods : List Pod) (m : Dict (List String))
    → free_in (lookup name (put_pods pods m))
      ≡ (free_in (lookup name m) && not (any (runs_on name) pods))
unfolding put_pods
put_pods-free name [] m = ground arith
put_pods-free name (pod ∷ pods) m =
    ground (arith, put_pod-free name pod m, put_pods-free name pods (put_pod pod m))

pub node_map-free :
    (name : String) (nodes : List Node) (m : Dict (List String))
    → free_in (lookup name (node_map nodes m))
      ≡ (any (λ n. n.name == name) nodes || free_in (lookup name m))
unfolding node_map
node_map-free name [] m = refl
node_map-free name (node ∷ nodes) m =
    ground
      (arith, lookup-insert node.name name [] m, node_map-free name nodes (insert node.name [] m))
