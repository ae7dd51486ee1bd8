-- ===== src/Effects/Listers.antt =====
-- The listers of client-go over their caches: `Get` by namespace and name, `List` by labels.
use elasticell_operator.Base.{
  String, Bool, true, false, ◌&&◌, Option, none, some, List, [], ◌∷◌, Dict, lookup, ◌==◌, select,
  if◌then◌else◌,
}
use elasticell_operator.Api.Objects.{Pod, Pvc, Pv, Service, StatefulSet}
use elasticell_operator.Effects.Types.{
  Error, not_found, Result, ok, err, pod_kind, pvc_kind, pv_kind, service_kind, set_kind, Env,
}
use elasticell_operator.Effects.Exec.{M}

module _ {A : Type 0} where
  abbrev pub find : (A → Bool) → List A → Option A
  find p [] = none
  find p (x ∷ xs) = if p x then some x else find p xs

  abbrev found : Option A → Result A
  found none = err not_found
  found (some a) = ok a

  abbrev answer : Option Error → Result A → Result A
  answer none r = r
  answer (some e) r = err e

-- Every pair of the selector is a label of the object.
abbrev same_value : Option String → String → Bool
same_value none v = false
same_value (some u) v = u == v

unfoldable pub matches : Dict String → Dict String → Bool
matches [] labels = true
matches ((k, v) ∷ rest) labels = same_value (lookup k labels) v && matches rest labels

-- What `Get` finds, and what `List` returns: the first fault on the way is the result.
module _ (env : Env) where
  unfoldable pub pod_at : String → String → List Pod → Result Pod
  pod_at ns name pods =
      answer (env.fault pod_kind name)
        (found (find (λ p. p.name == name && p.namespace == ns) pods))

  unfoldable pub pvc_at : String → String → List Pvc → Result Pvc
  pvc_at ns name pvcs =
      answer (env.fault pvc_kind name)
        (found (find (λ p. p.name == name && p.namespace == ns) pvcs))

  unfoldable pub pv_at : String → List Pv → Result Pv
  pv_at name pvs = answer (env.fault pv_kind name) (found (find (λ p. p.name == name) pvs))

  unfoldable pub service_at : String → String → List Service → Result Service
  service_at ns name services =
      answer (env.fault service_kind name)
        (found (find (λ s. s.name == name && s.namespace == ns) services))

  unfoldable pub set_at : String → String → List StatefulSet → Result StatefulSet
  set_at ns name sets =
      answer (env.fault set_kind name)
        (found (find (λ s. s.name == name && s.namespace == ns) sets))

  unfoldable pub pods_with : String → Dict String → List Pod → Result (List Pod)
  pods_with ns l pods = answer (env.selector_fault l) (
      answer (env.fault pod_kind "")
        (ok (select (λ p. p.namespace == ns && matches l p.labels) pods)))

  unfoldable pub pvcs_with : String → Dict String → List Pvc → Result (List Pvc)
  pvcs_with ns l pvcs = answer (env.selector_fault l) (
      answer (env.fault pvc_kind "")
        (ok (select (λ p. p.namespace == ns && matches l p.labels) pvcs)))

  abbrev pub get_pod : String → String → M Pod
  get_pod ns name w = (pod_at ns name w.pods, w)

  abbrev pub get_pvc : String → String → M Pvc
  get_pvc ns name w = (pvc_at ns name w.pvcs, w)

  abbrev pub get_pv : String → M Pv
  get_pv name w = (pv_at name w.pvs, w)

  abbrev pub get_service : String → String → M Service
  get_service ns name w = (service_at ns name w.services, w)

  abbrev pub get_set : String → String → M StatefulSet
  get_set ns name w = (set_at ns name w.sets, w)

  abbrev pub list_pods : String → Dict String → M (List Pod)
  list_pods ns l w = (pods_with ns l w.pods, w)

  abbrev pub list_pvcs : String → Dict String → M (List Pvc)
  list_pvcs ns l w = (pvcs_with ns l w.pvcs, w)
