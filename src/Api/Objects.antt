-- ===== src/Api/Objects.antt =====
-- Pods, claims, volumes, services, nodes and StatefulSets, with the fields that the source reads.
-- `none` for annotations is Go's nil map; for labels nil is the empty map.
use elasticell_operator.Base.{ℕ, String, Bool, Option, List, Dict, ℤ}
use elasticell_operator.Api.Pods.{PodSpec, Volume, Quantity}

-- `waiting` is the reason of `State.Waiting`, if the container waits.
pub record ContainerStatus : Type 0 where
  pub waiting : Option String

pub record Pod : Type 0 where
  pub name : String
  pub namespace : String
  pub labels : Dict String
  pub annotations : Option (Dict String)
  pub volumes : List Volume
  pub node_name : String
  pub phase : String
  pub container_statuses : List ContainerStatus

pub record Pvc : Type 0 where
  pub name : String
  pub namespace : String
  pub labels : Dict String
  pub annotations : Option (Dict String)
  pub volume_name : String
  pub phase : String

pub record Pv : Type 0 where
  pub name : String
  pub labels : Dict String
  pub annotations : Dict String
  pub claim_ref : Option String
  pub reclaim_policy : String

pub record OwnerReference : Type 0 where
  pub api_version : String
  pub kind : String
  pub name : String
  pub uid : String
  pub controller : Bool
  pub block_owner_deletion : Bool

pub record ServicePort : Type 0 where
  pub name : String
  pub port : ℕ
  pub target_port : ℕ
  pub protocol : String

pub record ServiceSpec : Type 0 where
  pub service_type : String
  pub cluster_ip : String
  pub ports : List ServicePort
  pub selector : Dict String

pub record Service : Type 0 where
  pub name : String
  pub namespace : String
  pub labels : Dict String
  pub annotations : Option (Dict String)
  pub owner_references : List OwnerReference
  pub spec : ServiceSpec

pub record Node : Type 0 where
  pub name : String
  pub labels : Option (Dict String)

pub record Template : Type 0 where
  pub labels : Dict String
  pub annotations : Option (Dict String)
  pub spec : PodSpec

pub record ClaimTemplate : Type 0 where
  pub name : String
  pub access_modes : List String
  pub storage_class : String
  pub storage : Quantity

-- `partition` is nil where the pointer is; `rolling_update` likewise.
pub record RollingUpdate : Type 0 where
  pub partition : Option ℤ

pub record UpdateStrategy : Type 0 where
  pub strategy_type : String
  pub rolling_update : Option RollingUpdate

-- `Replicas` is a pointer that the API server always fills.
pub record SetSpec : Type 0 where
  pub replicas : ℤ
  pub selector : Dict String
  pub template : Template
  pub claims : List ClaimTemplate
  pub service_name : String
  pub pod_management : String
  pub update_strategy : UpdateStrategy

pub record SetStatus : Type 0 where
  pub observed_generation : Option ℕ
  pub replicas : ℤ
  pub ready_replicas : ℤ
  pub current_revision : String
  pub update_revision : String

pub record StatefulSet : Type 0 where
  pub name : String
  pub namespace : String
  pub labels : Dict String
  pub annotations : Option (Dict String)
  pub owner_references : List OwnerReference
  pub generation : ℕ
  pub spec : SetSpec
  pub status : SetStatus
