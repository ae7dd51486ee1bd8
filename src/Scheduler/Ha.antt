-- ===== src/Scheduler/Ha.antt =====
-- pkg/scheduler/predicates/ha.go and predicate.go: no two pods of a component on one node. The
-- claims and pods of `World` stand for those that the API server lists.
pub mod Lock
pub mod Counts
pub mod Spread
use Prim.Native.String.{◌++◌ as concat}
use elasticell_operator.Base.{
  ℕ, suc, String, Bool, true, false, ◌||◌, not, Option, none, some, List, [], ◌∷◌, ◌++◌, Dict,
  lookup, insert, delete, ltb, leb, nat_eq, length, select, any, ◌==◌, if◌then◌else◌,
}
use elasticell_operator.Api.Objects.{Pod, Pvc, Node}
use elasticell_operator.Label
use elasticell_operator.Label.{
  instance_label_key, component_label_key, ann_pvc_pod_scheduling, fresh, with_instance,
  with_component,
}
use elasticell_operator.Effects.{
  failure, nodes_empty, no_node_fits, no_current_pvc, waiting_for_scheduling, update_pvc, World,
  Env, M, pure, fail, ◌>>=◌, ◌>>◌, get_pvc, list_pods, list_pvcs, request,
}
use elasticell_operator.Member.Config.{annotation, annotate}

abbrev pub max_pod_count_per_node : ℕ
max_pod_count_per_node = 1

abbrev pub pvc_name : String → String → String
pvc_name component pod_name = concat component (concat "-" pod_name)

abbrev or_empty : Option String → String
or_empty none = ""
or_empty (some s) = s

abbrev pub is_scheduling : Pvc → Bool
is_scheduling pvc = not (or_empty (annotation ann_pvc_pod_scheduling pvc.annotations) == "")

-- The loop over the claims: the last one of the pod's name, and the first one that is marked,
-- with their places in the list, which stand for the pointers.
unfoldable pub find_claims :
    String
    → ℕ
    → List Pvc
    → Option (ℕ × Pvc)
    → Option (ℕ × Pvc)
    → Option (ℕ × Pvc) × Option (ℕ × Pvc)
find_claims name i [] current scheduling = (current, scheduling)
find_claims name i (pvc ∷ pvcs) current scheduling =
    find_claims name (suc i) pvcs (if pvc.name == name then some (i, pvc) else current)
      (elim scheduling [
        | none ↦ if is_scheduling pvc then some (i, pvc) else none
        | some s ↦ some s
      ])

abbrev pub set_scheduling : Env → Pvc → Pvc
set_scheduling env pvc = record pvc {
  annotations = annotate ann_pvc_pod_scheduling (env.format_time env.now) pvc.annotations;
}

abbrev without : Option (Dict String) → Option (Dict String)
without none = none
without (some m) = some (delete ann_pvc_pod_scheduling m)

abbrev pub unset_scheduling : Pvc → Pvc
unset_scheduling pvc = record pvc { annotations = without pvc.annotations }

abbrev pub component_labels : String → String → Dict String
component_labels instance_name component =
    with_component component (with_instance instance_name fresh)

module _ (env : Env) where
  unfoldable pub set_current_pod_scheduling : Pvc → M (Unit {0})
  set_current_pod_scheduling pvc = request env (update_pvc (set_scheduling env pvc))

  unfoldable pub take_over : ℕ × Pvc → ℕ × Pvc → M (Unit {0})
  take_over (i, current) (j, scheduling) = elim (nat_eq i j) [
    | true ↦ pure tt
    | false ↦ elim (scheduling.phase == "Bound") [
      | false ↦ fail (failure waiting_for_scheduling)
      | true ↦ do
        request env (update_pvc (unset_scheduling scheduling))
        set_current_pod_scheduling current
    ]
  ]

  abbrev pub lock_claims : Option (ℕ × Pvc) × Option (ℕ × Pvc) → M (Unit {0})
  lock_claims (none, scheduling) = fail (failure no_current_pvc)
  lock_claims (some (i, current), none) = set_current_pod_scheduling current
  lock_claims (some current, some scheduling) = take_over current scheduling

  unfoldable pub acquire_lock : Pod → M (Unit {0})
  acquire_lock pod = do
    let component = Label.get component_label_key pod.labels
    pvcs ←
        list_pvcs env pod.namespace
          (component_labels (Label.get instance_label_key pod.labels) component)
    lock_claims (find_claims (pvc_name component pod.name) 0 pvcs none none)

-- `nodeMap`: the pods of each node.
unfoldable pub node_map : List Node → Dict (List String) → Dict (List String)
node_map [] names = names
node_map (node ∷ nodes) names = node_map nodes (insert node.name [] names)

abbrev pub put_pod : Pod → Dict (List String) → Dict (List String)
put_pod pod names = if pod.node_name == "" then names else elim (lookup pod.node_name names) [
  | none ↦ names
  | some pods ↦ insert pod.node_name (pods ++ (pod.name ∷ [])) names
]

unfoldable pub put_pods : List Pod → Dict (List String) → Dict (List String)
put_pods [] names = names
put_pods (pod ∷ pods) names = put_pods pods (put_pod pod names)

-- The loop over `nodeMap`, which Go visits in any order; `none` is the -1 of the source.
unfoldable pub min_node_names : Option ℕ → List String → Dict (List String) → List String
min_node_names min found [] = found
min_node_names min found ((name, pods) ∷ rest) =
    let count = length pods in
    if leb max_pod_count_per_node count then min_node_names min found rest else elim min [
      | none ↦ min_node_names (some count) (found ++ (name ∷ [])) rest
      | some m ↦
          if ltb m count
          then min_node_names (some m) found rest
          else if ltb count m
          then min_node_names (some count) (name ∷ []) rest
          else min_node_names (some m) (found ++ (name ∷ [])) rest
    ]

unfoldable pub get_node_from_names : List Node → List String → List Node
get_node_from_names nodes names = select (λ node. any (λ name. node.name == name) names) nodes

abbrev fitting : List Node → List String → M (List Node)
fitting nodes [] = fail (failure no_node_fits)
fitting nodes (name ∷ names) = pure (get_node_from_names nodes (name ∷ names))

module _ (env : Env) (instance_name : String) where
  unfoldable pub spread : Pod → List Node → M (List Node)
  spread pod nodes = do
    pods ←
        list_pods env pod.namespace
          (component_labels instance_name (Label.get component_label_key pod.labels))
    fitting nodes (min_node_names none [] (put_pods pods (node_map nodes [])))

  -- A single node is kept for a pod whose claim is bound there.
  unfoldable pub filter_locked : Pod → List Node → M (List Node)
  filter_locked pod (node ∷ []) = do
    pvc ← get_pvc env pod.namespace (pvc_name (Label.get component_label_key pod.labels) pod.name)
    elim (pvc.phase == "Bound") [ true ↦ pure (node ∷ []) | false ↦ spread pod (node ∷ []) ]
  filter_locked pod nodes = spread pod nodes

  unfoldable pub filter : Pod → List Node → M (List Node)
  filter pod [] = fail (failure nodes_empty)
  filter pod (node ∷ nodes) = do acquire_lock env pod; filter_locked pod (node ∷ nodes)
