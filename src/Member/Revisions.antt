-- ===== src/Member/Revisions.antt =====
-- The tail of the three `…StatefulSetIsUpgrading` functions: the first pod that lacks the revision
-- label ends the search with no, the first that carries another revision with yes.
use elasticell_operator.Base.{
  String, Bool, true, false, ◌==◌, none, some, List, [], ◌∷◌, Dict, if◌then◌else◌,
}
use elasticell_operator.Api.Objects.{Pod, StatefulSet}
use elasticell_operator.Effects.{Env, M, pure, gets, list_pods, ◌>>=◌}
use elasticell_operator.Member.Config.{stateful_set_is_upgrading}
use elasticell_operator.Member.Rollout.{revision}

unfoldable pub revisions_differ : String → List Pod → Bool
revisions_differ update_revision [] = false
revisions_differ update_revision (pod ∷ pods) =
    let rest = revisions_differ update_revision pods in
    elim (revision pod) [
      | none ↦ false
      | some hash ↦ if hash == update_revision then rest else true
    ]

-- The update revision is read from the status that was just set from the same StatefulSet.
unfoldable pub is_upgrading_by : Env → Dict String → StatefulSet → M Bool
is_upgrading_by env selector set = elim (stateful_set_is_upgrading set) [
  | true ↦ pure true
  | false ↦ do
    cluster ← gets (λ w. w.cc)
    pods ← list_pods env cluster.namespace selector
    pure (revisions_differ set.status.update_revision pods)
]
