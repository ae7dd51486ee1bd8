-- ===== src/Util/Affinity.antt =====
-- `AntiAffinityForPod` and `AffinityForNodeSelector` of pkg/util/util.go.
use elasticell_operator.Base.{
  ℕ, String, Bool, Option, none, some, List, [], ◌∷◌, map, Dict, lookup, ◌==◌, if◌then◌else◌,
}
use elasticell_operator.Api.Pods.{Affinity, Requirement, PreferredTerm, WeightedPodTerm}
use elasticell_operator.Label
use elasticell_operator.Util.Texts.{split}
use elasticell_operator.Util.Sorting.{sort, keys}

abbrev topology_scheduling_weight : Dict ℕ
topology_scheduling_weight =
    ("region", 10) ∷ ("zone", 20) ∷ ("rack", 40) ∷ ("kubernetes.io/hostname", 80) ∷ []

abbrev weight_of : Option ℕ → ℕ
weight_of none = 0
weight_of (some n) = n

abbrev anti_term : String → Dict String → String → WeightedPodTerm
anti_term namespace labels key = record {
  weight = weight_of (lookup key topology_scheduling_weight);
  match_labels = labels;
  topology_key = key;
  namespaces = namespace ∷ [];
}

unfoldable pub anti_affinity_for_pod : String → Dict String → List WeightedPodTerm
unfolding sort keys
anti_affinity_for_pod namespace labels =
    map (anti_term namespace labels) (sort (keys topology_scheduling_weight))

abbrev requirement : Dict String → String → Requirement
requirement selector key = record {
  key = key;
  operator = "In";
  values = split b',' (Label.get key selector);
}

-- The loop over the preferred keys: the terms by topology, and the requirements of the other keys.
-- A key with an empty value is passed over.
unfoldable pub preferences : Dict String → List String → List PreferredTerm × List Requirement
preferences selector [] = ([], [])
preferences selector (key ∷ rest) =
    let (terms, exps) = preferences selector rest in
    if Label.get key selector == ""
    then (terms, exps)
    else elim (lookup key topology_scheduling_weight) [
      | some weight ↦
          (record { weight = weight; expressions = requirement selector key ∷ [] } ∷ terms, exps)
      | none ↦ (terms, requirement selector key ∷ exps)
    ]

-- The anti-affinity labels that the callers pass are never nil.
unfoldable pub affinity_for_node_selector :
    String → Bool → Dict String → Option (Dict String) → Option Affinity
unfolding anti_affinity_for_pod sort keys preferences
affinity_for_node_selector namespace required labels none = none
affinity_for_node_selector namespace required labels (some selector) =
    let sorted = sort (keys selector) in
    let anti = some (anti_affinity_for_pod namespace labels) in
    let (terms, exps) = preferences selector sorted in
    some (
      if required
      then record {
        pod_anti_affinity = anti;
        node_affinity =
            some (record { required = map (requirement selector) sorted ∷ []; preferred = [] });
      }
      else record {
        pod_anti_affinity = anti;
        node_affinity = some (record { required = exps ∷ []; preferred = terms });
      })
