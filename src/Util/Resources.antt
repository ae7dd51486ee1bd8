-- ===== src/Util/Resources.antt =====
-- `ResourceRequirement` of pkg/util/util.go: what a container asks for and may use.
use elasticell_operator.Base.{
  String, Option, none, some, [], ◌∷◌, Dict, insert, lookup, pos, ◌==◌, if◌then◌else◌,
}
use elasticell_operator.Api.Pods.{Quantity, Resources}
use elasticell_operator.Api.Cluster.{ContainerSpec, ResourceRequirement}
use elasticell_operator.Effects.{Env}

abbrev or_zero : Option Quantity → Quantity
or_zero none = pos 0
or_zero (some q) = q

abbrev amount : String → Option (Dict Quantity) → Quantity
amount key none = pos 0
amount key (some m) = or_zero (lookup key m)

abbrev copied : Option (Dict Quantity) → Option (Dict Quantity)
copied m = some (("cpu", amount "cpu" m) ∷ ("memory", amount "memory" m) ∷ [])

-- The optional default of the variadic parameter.
abbrev from_default : Option Resources → Resources
from_default none = record { requests = none; limits = none }
from_default (some d) = record { requests = copied d.requests; limits = copied d.limits }

abbrev made : Option (Dict Quantity) → Dict Quantity
made none = []
made (some m) = m

-- A text that does not parse is logged and left out.
abbrev set_parsed : String → Option Quantity → Dict Quantity → Dict Quantity
set_parsed key none m = m
set_parsed key (some q) m = insert key q m

module _ (env : Env) where
  abbrev set_amount : String → String → Dict Quantity → Dict Quantity
  set_amount key text m = if text == "" then m else set_parsed key (env.parse_quantity text) m

  abbrev overlaid : Option ResourceRequirement → Option (Dict Quantity) → Option (Dict Quantity)
  overlaid none m = m
  overlaid (some r) m = some (set_amount "memory" r.memory (set_amount "cpu" r.cpu (made m)))

  unfoldable pub resource_requirement : ContainerSpec → Option Resources → Resources
  resource_requirement spec default =
      let rr = from_default default in
      record {
        requests = overlaid spec.requests rr.requests;
        limits = overlaid spec.limits rr.limits;
      }
