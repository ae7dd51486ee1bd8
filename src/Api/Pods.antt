-- ===== src/Api/Pods.antt =====
-- The parts of a pod's description that the operator writes (k8s.io/api/core/v1).
use elasticell_operator.Base.{ℕ, String, Bool, Option, List, Dict, ℤ}

pub record EnvVar : Type 0 where
  pub name : String
  pub value : String
  pub field_path : Option String

pub record VolumeMount : Type 0 where
  pub name : String
  pub read_only : Bool
  pub mount_path : String

-- A file of a config map, or of the pod's own description: its key or field, and its path.
pub record VolumeItem : Type 0 where
  pub key : String
  pub path : String

pub data VolumeSource : Type 0 where
  claim : String → VolumeSource
  config_map : String → List VolumeItem → VolumeSource
  downward_api : List VolumeItem → VolumeSource
  other_source : VolumeSource

pub record Volume : Type 0 where
  pub name : String
  pub source : VolumeSource

pub record ContainerPort : Type 0 where
  pub name : String
  pub container_port : ℕ
  pub protocol : String

-- A parsed amount (resource.Quantity), in thousandths.
abbrev pub Quantity : Type 0
Quantity = ℤ

pub record Resources : Type 0 where
  pub requests : Option (Dict Quantity)
  pub limits : Option (Dict Quantity)

pub record Container : Type 0 where
  pub name : String
  pub image : String
  pub command : List String
  pub image_pull_policy : String
  pub ports : List ContainerPort
  pub volume_mounts : List VolumeMount
  pub resources : Resources
  pub env : List EnvVar

pub record Requirement : Type 0 where
  pub key : String
  pub operator : String
  pub values : List String

pub record PreferredTerm : Type 0 where
  pub weight : ℕ
  pub expressions : List Requirement

pub record WeightedPodTerm : Type 0 where
  pub weight : ℕ
  pub match_labels : Dict String
  pub topology_key : String
  pub namespaces : List String

pub record NodeAffinity : Type 0 where
  pub required : List (List Requirement)
  pub preferred : List PreferredTerm

pub record Affinity : Type 0 where
  pub pod_anti_affinity : Option (List WeightedPodTerm)
  pub node_affinity : Option NodeAffinity

pub record PodSpec : Type 0 where
  pub scheduler_name : String
  pub affinity : Option Affinity
  pub containers : List Container
  pub restart_policy : String
  pub tolerations : List String
  pub volumes : List Volume
