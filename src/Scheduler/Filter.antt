-- ===== src/Scheduler/Filter.antt =====
-- pkg/scheduler/scheduler.go
use elasticell_operator.Base.{
  ℕ, String, Bool, true, false, ◌||◌, none, some, List, [], ◌∷◌, lookup, ◌==◌,
}
use elasticell_operator.Api.Objects.{Pod, Node}
use elasticell_operator.Label
use elasticell_operator.Label.{
  instance_label_key, component_label_key, pd_label_val, store_label_val,
}
use elasticell_operator.Effects.{M, pure, ◌>>=◌}

abbrev pub Predicate : Type 0
Predicate = String → Pod → List Node → M (List Node)

unfoldable pub apply_all : List Predicate → Predicate
apply_all [] instance_name pod nodes = pure nodes
apply_all (p ∷ ps) instance_name pod nodes = do
  kept ← p instance_name pod nodes
  apply_all ps instance_name pod kept

abbrev pub is_scheduled : Pod → Bool
is_scheduled pod =
    let component = Label.get component_label_key pod.labels in
    component == pd_label_val || component == store_label_val

-- Pods of others, and those of the proxies, keep all nodes.
unfoldable pub filter : List Predicate → Pod → List Node → M (List Node)
filter predicates pod nodes = elim (lookup instance_label_key pod.labels) [
  | none ↦ pure nodes
  | some instance_name ↦ elim (is_scheduled pod) [
    | false ↦ pure nodes
    | true ↦ apply_all predicates instance_name pod nodes
  ]
]

unfoldable pub priority : List Node → List (String × ℕ)
priority [] = []
priority (node ∷ nodes) = (node.name, 0) ∷ priority nodes
