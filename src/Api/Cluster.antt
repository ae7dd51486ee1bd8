-- ===== src/Api/Cluster.antt =====
-- types.go: the CellCluster resource. Times are nanoseconds, and 0 is the zero time.
use elasticell_operator.Base.{ℕ, String, Bool, true, false, Option, List, Dict, ℤ}
use elasticell_operator.Api.Objects.{SetStatus}

pub data MemberType : Type 0 where
  pd store proxy unknown : MemberType

-- The phase of a component; `unset` is the empty text of a new resource.
pub data MemberPhase : Type 0 where
  unset normal_phase upgrade_phase : MemberPhase

pub data StoreState : Type 0 where
  up down offline tombstone : StoreState

pub record ResourceRequirement : Type 0 where
  pub cpu : String
  pub memory : String
  pub storage : String

pub record ContainerSpec : Type 0 where
  pub image : String
  pub image_pull_policy : String
  pub requests : Option ResourceRequirement
  pub limits : Option ResourceRequirement

pub record ServiceEntry : Type 0 where
  pub name : String
  pub service_type : String

-- PDSpec, StoreSpec and ProxySpec have the same fields.
pub record MemberSpec : Type 0 where
  pub container : ContainerSpec
  pub replicas : ℤ
  pub node_selector : Option (Dict String)
  pub node_selector_required : Bool
  pub storage_class_name : String
  pub tolerations : List String

pub record ClusterSpec : Type 0 where
  pub scheduler_name : String
  pub pd : MemberSpec
  pub proxy : MemberSpec
  pub store : MemberSpec
  pub services : List ServiceEntry
  pub pv_reclaim_policy : String
  pub timezone : String
  pub pd_peer_url : String
  pub pd_peer_rpc : String

pub record PdMember : Type 0 where
  pub name : String
  pub id : String
  pub client_url : String
  pub health : Bool
  pub last_transition_time : ℕ

pub record PdFailureMember : Type 0 where
  pub pod_name : String
  pub member_id : String
  pub pvc_uid : String
  pub member_deleted : Bool

pub record PdStatus : Type 0 where
  pub synced : Bool
  pub phase : MemberPhase
  pub stateful_set : Option SetStatus
  pub members : Dict PdMember
  pub leader : PdMember
  pub failure_members : Dict PdFailureMember

pub record ProxyMember : Type 0 where
  pub name : String
  pub health : Bool
  pub last_transition_time : ℕ

pub record ProxyFailureMember : Type 0 where
  pub pod_name : String

pub record ProxyStatus : Type 0 where
  pub phase : MemberPhase
  pub stateful_set : Option SetStatus
  pub members : Dict ProxyMember
  pub failure_members : Dict ProxyFailureMember

pub record KvStore : Type 0 where
  pub id : String
  pub pod_name : String
  pub ip : String
  pub leader_count : ℤ
  pub state : StoreState
  pub last_heartbeat_time : ℕ
  pub last_transition_time : ℕ

pub record KvFailureStore : Type 0 where
  pub pod_name : String
  pub store_id : String

pub record StoreStatus : Type 0 where
  pub synced : Bool
  pub phase : MemberPhase
  pub stateful_set : Option SetStatus
  pub stores : Dict KvStore
  pub tombstone_stores : Dict KvStore
  pub failure_stores : Dict KvFailureStore

pub record ClusterStatus : Type 0 where
  pub cluster_id : String
  pub pd : PdStatus
  pub store : StoreStatus
  pub proxy : ProxyStatus

pub record CellCluster : Type 0 where
  pub name : String
  pub namespace : String
  pub uid : String
  pub labels : Dict String
  pub spec : ClusterSpec
  pub status : ClusterStatus

abbrev pub is_upgrade : MemberPhase → Bool
is_upgrade upgrade_phase = true
is_upgrade _ = false

abbrev pub is_up : StoreState → Bool
is_up up = true
is_up _ = false

abbrev pub is_down : StoreState → Bool
is_down down = true
is_down _ = false

abbrev pub is_offline : StoreState → Bool
is_offline offline = true
is_offline _ = false

abbrev pub same_state : StoreState → StoreState → Bool
same_state up up = true
same_state down down = true
same_state offline offline = true
same_state tombstone tombstone = true
same_state _ _ = false
