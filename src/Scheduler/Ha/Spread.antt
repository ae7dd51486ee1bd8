-- ===== src/Scheduler/Ha/Spread.antt =====
-- The nodes that the predicate keeps (ha.go).
use elasticell_operator.Base.{
  inl, All, ◌≡◌, refl, Bool, true, false, not, ◌⊎◌, none, List, [], ◌∷◌, String, select, any, ◌==◌,
  eq_iff, arith,
}
use elasticell_operator.Api.Objects.{Pod, Pvc, Node}
use elasticell_operator.Label
use elasticell_operator.Label.{component_label_key}
use elasticell_operator.Effects.{ok, err, World, Env, pods_with, pvc_at, request}
use elasticell_operator.Scheduler.Ha.{
  pvc_name, component_labels, spread, filter_locked, filter, acquire_lock, take_over,
  set_current_pod_scheduling, node_map, put_pods, min_node_names, get_node_from_names,
}
use elasticell_operator.Scheduler.Ha.Counts.{
  elem, runs_on, min_node_names-elem, put_pods-differ, node_map-differ, put_pods-free,
  node_map-free,
}

-- The node's name is the name of a node of the list.
abbrev Named : List Node → Node → Type 0
Named all node = any (λ m. m.name == node.name) all ≡ true

Named-more :
    (x : Node) (all nodes : List Node) → All (Named all) nodes → All (Named (x ∷ all)) nodes
Named-more x all [] h = tt
Named-more x all (node ∷ nodes) h = (ground arith, Named-more x all nodes h.1)

Named-All : (nodes : List Node) → All (Named nodes) nodes
Named-All [] = tt
Named-All (node ∷ nodes) =
    (ground (arith, eq_iff node.name node.name), Named-more node nodes nodes (Named-All nodes))

-- No pod of the list was given the node.
abbrev pub is_free : List Pod → Node → Bool
is_free pods node = not (any (runs_on node.name) pods)

names-elem :
    (nodes : List Node) (pods : List Pod) (node : Node)
    → Named nodes node
    → elem node.name (min_node_names none [] (put_pods pods (node_map nodes [])))
      ≡ is_free pods node
names-elem nodes pods node h =
    let m = node_map nodes [] in
    ground (
      arith,
      min_node_names-elem node.name (put_pods pods m) none []
          (put_pods-differ pods m (node_map-differ nodes [] refl)),
      put_pods-free node.name pods m,
      node_map-free node.name nodes [],
    )

select-congruent :
    (p q : Node → Bool) (nodes : List Node)
    → All (λ node. p node ≡ q node) nodes
    → select p nodes ≡ select q nodes
select-congruent p q [] h = refl
select-congruent p q (node ∷ nodes) h = ground (arith, h.0, select-congruent p q nodes h.1)

All-map :
    (P Q : Node → Type 0) (f : (node : Node) → P node → Q node) (nodes : List Node)
    → All P nodes
    → All Q nodes
All-map P Q f [] h = tt
All-map P Q f (node ∷ nodes) h = (f node h.0, All-map P Q f nodes h.1)

kept_nodes :
    (nodes : List Node) (pods : List Pod)
    → get_node_from_names nodes (min_node_names none [] (put_pods pods (node_map nodes [])))
      ≡ select (is_free pods) nodes
unfolding get_node_from_names
kept_nodes nodes pods =
    select-congruent _ (is_free pods) nodes
      (All-map (Named nodes) _ (names-elem nodes pods) nodes (Named-All nodes))

abbrev pub single_bound : Env → Pod → List Node → List Pvc → Bool
single_bound env pod [] pvcs = false
single_bound env pod (node ∷ []) pvcs =
    elim (pvc_at env pod.namespace (pvc_name (Label.get component_label_key pod.labels) pod.name)
      pvcs) [ err e ↦ false | ok pvc ↦ pvc.phase == "Bound" ]
single_bound env pod (node ∷ next ∷ nodes) pvcs = false

spread_kept :
    (env : Env) (instance_name : String) (pod : Pod) (nodes kept : List Node) (pods : List Pod)
    (w w' : World)
    → spread env instance_name pod nodes w ≡ (ok kept, w')
    → pods_with env pod.namespace
        (component_labels instance_name (Label.get component_label_key pod.labels))
        w.pods
      ≡ ok pods
    → kept ≡ select (is_free pods) nodes
unfolding spread
spread_kept env instance_name pod nodes kept pods w w' h listed =
    ground (arith, kept_nodes nodes pods)

locked_kept :
    (env : Env) (instance_name : String) (pod : Pod) (nodes kept : List Node) (pods : List Pod)
    (w w' : World)
    → filter_locked env instance_name pod nodes w ≡ (ok kept, w')
    → pods_with env pod.namespace
        (component_labels instance_name (Label.get component_label_key pod.labels))
        w.pods
      ≡ ok pods
    → (kept ≡ select (is_free pods) nodes)
      ⊎ ((single_bound env pod nodes w.pvcs ≡ true) × (kept ≡ nodes))
unfolding filter_locked
locked_kept env instance_name pod [] kept pods w w' h listed =
    inl (spread_kept env instance_name pod [] kept pods w w' h listed)
locked_kept env instance_name pod (node ∷ []) kept pods w w' h listed =
    ground (arith, spread_kept env instance_name pod (node ∷ []) kept pods w w')
locked_kept env instance_name pod (node ∷ next ∷ nodes) kept pods w w' h listed =
    inl (spread_kept env instance_name pod (node ∷ next ∷ nodes) kept pods w w' h listed)

lock-same :
    (env : Env) (pod : Pod) (w : World)
    → ((acquire_lock env pod w).1.pods ≡ w.pods) × ((acquire_lock env pod w).1.pvcs ≡ w.pvcs)
unfolding acquire_lock take_over set_current_pod_scheduling request
lock-same env pod w = ground arith

-- If the predicate returns nodes, they are, in their order, exactly those nodes that no pod of the
-- component was given; only a single node, for a pod whose claim is already bound, is kept as it
-- is.
pub filter_keeps_free :
    (env : Env) (instance_name : String) (pod : Pod) (nodes kept : List Node) (pods : List Pod)
    (w w' : World)
    → filter env instance_name pod nodes w ≡ (ok kept, w')
    → pods_with env pod.namespace
        (component_labels instance_name (Label.get component_label_key pod.labels))
        w.pods
      ≡ ok pods
    → (kept ≡ select (is_free pods) nodes)
      ⊎ ((single_bound env pod nodes w.pvcs ≡ true) × (kept ≡ nodes))
unfolding filter
filter_keeps_free env instance_name pod [] kept pods w w' h listed = ground arith
filter_keeps_free env instance_name pod (node ∷ nodes) kept pods w w' h listed =
    let after = (acquire_lock env pod w).1 in
    ground (
      arith,
      lock-same env pod w,
      locked_kept env instance_name pod (node ∷ nodes) kept pods after w',
    )
