-- ===== src/Fakes/Doubles.antt =====
-- FakeStatefulSetControl, FakeServiceControl, FakePodControl, FakePVControl, FakePVCControl and
-- FakeCellClusterControl, beside the controls in pkg/controller: their
-- state, constructors and setters. `I` is client-go's cache.
use elasticell_operator.Base.{Option, none, ℤ}
use elasticell_operator.Api.Objects.{StatefulSet}
use elasticell_operator.Effects.{Error}
use elasticell_operator.Fakes.{Tracker, new_tracker, set_error}

-- `statusChange` writes to the object that it is given.
pub record SetDouble (I : Type 0) : Type 0 where
  pub sets : I
  pub create_tracker : Tracker
  pub update_tracker : Tracker
  pub delete_tracker : Tracker
  pub status_change : Option (StatefulSet → StatefulSet)

pub record ServiceDouble (I : Type 0) : Type 0 where
  pub services : I
  pub create_tracker : Tracker
  pub update_tracker : Tracker
  pub delete_tracker : Tracker

pub record PodDouble (I : Type 0) : Type 0 where
  pub pods : I
  pub update_tracker : Tracker
  pub delete_tracker : Tracker
  pub cluster_tracker : Tracker
  pub member_tracker : Tracker
  pub store_tracker : Tracker

pub record PvDouble (I : Type 0) : Type 0 where
  pub pvs : I
  pub update_tracker : Tracker

pub record PvcDouble (I : Type 0) : Type 0 where
  pub pvcs : I
  pub update_tracker : Tracker
  pub delete_tracker : Tracker

pub record ClusterDouble (I : Type 0) : Type 0 where
  pub clusters : I
  pub update_tracker : Tracker

module _ {I : Type 0} where
  unfoldable pub new_set_double : I → SetDouble I
  new_set_double i = record {
    sets = i;
    create_tracker = new_tracker;
    update_tracker = new_tracker;
    delete_tracker = new_tracker;
    status_change = none;
  }

  unfoldable pub new_service_double : I → ServiceDouble I
  new_service_double i = record {
    services = i;
    create_tracker = new_tracker;
    update_tracker = new_tracker;
    delete_tracker = new_tracker;
  }

  unfoldable pub new_pod_double : I → PodDouble I
  new_pod_double i = record {
    pods = i;
    update_tracker = new_tracker;
    delete_tracker = new_tracker;
    cluster_tracker = new_tracker;
    member_tracker = new_tracker;
    store_tracker = new_tracker;
  }

  unfoldable pub new_pv_double : I → PvDouble I
  new_pv_double i = record { pvs = i; update_tracker = new_tracker }

  unfoldable pub new_pvc_double : I → PvcDouble I
  new_pvc_double i = record { pvcs = i; update_tracker = new_tracker; delete_tracker = new_tracker }

  unfoldable pub new_cluster_double : I → ClusterDouble I
  new_cluster_double i = record { clusters = i; update_tracker = new_tracker }

  unfoldable pub set_create_stateful_set_error : Option Error → ℤ → SetDouble I → SetDouble I
  set_create_stateful_set_error e after f = record f {
    create_tracker = set_error e after f.create_tracker;
  }

  unfoldable pub set_update_stateful_set_error : Option Error → ℤ → SetDouble I → SetDouble I
  set_update_stateful_set_error e after f = record f {
    update_tracker = set_error e after f.update_tracker;
  }

  unfoldable pub set_delete_stateful_set_error : Option Error → ℤ → SetDouble I → SetDouble I
  set_delete_stateful_set_error e after f = record f {
    delete_tracker = set_error e after f.delete_tracker;
  }

  unfoldable pub set_status_change : Option (StatefulSet → StatefulSet) → SetDouble I → SetDouble I
  set_status_change change f = record f { status_change = change }

  unfoldable pub set_create_service_error : Option Error → ℤ → ServiceDouble I → ServiceDouble I
  set_create_service_error e after f = record f {
    create_tracker = set_error e after f.create_tracker;
  }

  unfoldable pub set_update_service_error : Option Error → ℤ → ServiceDouble I → ServiceDouble I
  set_update_service_error e after f = record f {
    update_tracker = set_error e after f.update_tracker;
  }

  unfoldable pub set_delete_service_error : Option Error → ℤ → ServiceDouble I → ServiceDouble I
  set_delete_service_error e after f = record f {
    delete_tracker = set_error e after f.delete_tracker;
  }

  unfoldable pub set_update_pod_error : Option Error → ℤ → PodDouble I → PodDouble I
  set_update_pod_error e after f = record f { update_tracker = set_error e after f.update_tracker }

  unfoldable pub set_delete_pod_error : Option Error → ℤ → PodDouble I → PodDouble I
  set_delete_pod_error e after f = record f { delete_tracker = set_error e after f.delete_tracker }

  unfoldable pub set_get_cluster_error : Option Error → ℤ → PodDouble I → PodDouble I
  set_get_cluster_error e after f = record f {
    cluster_tracker = set_error e after f.cluster_tracker;
  }

  unfoldable pub set_get_member_error : Option Error → ℤ → PodDouble I → PodDouble I
  set_get_member_error e after f = record f { member_tracker = set_error e after f.member_tracker }

  unfoldable pub set_get_store_error : Option Error → ℤ → PodDouble I → PodDouble I
  set_get_store_error e after f = record f { store_tracker = set_error e after f.store_tracker }

  unfoldable pub set_update_pv_error : Option Error → ℤ → PvDouble I → PvDouble I
  set_update_pv_error e after f = record f { update_tracker = set_error e after f.update_tracker }

  unfoldable pub set_update_pvc_error : Option Error → ℤ → PvcDouble I → PvcDouble I
  set_update_pvc_error e after f = record f { update_tracker = set_error e after f.update_tracker }

  unfoldable pub set_delete_pvc_error : Option Error → ℤ → PvcDouble I → PvcDouble I
  set_delete_pvc_error e after f = record f { delete_tracker = set_error e after f.delete_tracker }

  unfoldable pub set_update_cell_cluster_error :
      Option Error → ℤ → ClusterDouble I → ClusterDouble I
  set_update_cell_cluster_error e after f = record f {
    update_tracker = set_error e after f.update_tracker;
  }
