-- ===== src/Member/StoreUpgrader/Pods.antt =====
-- Writing to the annotations of a pod in the lister's cache.
use elasticell_operator.Base.{
  String, Option, none, Dict, List, [], ◌∷◌, ◌==◌, ◌&&◌, if◌then◌else◌, ◌≡◌, refl, arith,
}
use elasticell_operator.Api.Objects.{Pod}
use elasticell_operator.Effects.{World, Env, Result, ok, err, pod_at}

abbrev pub Edit : Type 0
Edit = Option (Dict String) → Option (Dict String)

-- The object that the lister found under that namespace and name.
abbrev pub edit : String → String → Edit → List Pod → List Pod
edit ns name f [] = []
edit ns name f (p ∷ ps) =
    if p.name == name && p.namespace == ns
    then record p { annotations = f p.annotations } ∷ ps
    else p ∷ edit ns name f ps

abbrev pub edit_pod : Pod → Edit → World → World
edit_pod pod f w = record w { pods = edit pod.namespace pod.name f w.pods }

-- A pod without its annotations, or the lister's error.
abbrev bare : Pod → Pod
bare p = record p { annotations = none }

abbrev pub view : Result Pod → Result Pod
view (err e) = err e
view (ok p) = ok (bare p)

-- An edit of annotations shows in no other field, whichever pod is asked for.
pub view-edit :
    (env : Env) (ns name ns' name' : String) (f : Edit) (pods : List Pod)
    → view (pod_at env ns name (edit ns' name' f pods)) ≡ view (pod_at env ns name pods)
unfolding pod_at
view-edit env ns name ns' name' f [] = refl
view-edit env ns name ns' name' f (p ∷ ps) = ground (arith, view-edit env ns name ns' name' f ps)
