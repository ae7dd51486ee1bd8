-- ===== src/Fakes/Controls.antt =====
-- The methods of the doubles of the controls in pkg/controller.
use elasticell_operator.Base.{String, Option, none, some, [], ◌∷◌, Dict}
use elasticell_operator.Api.Objects.{Pod, Pvc, Pv, Service, StatefulSet}
use elasticell_operator.Api.Cluster.{CellCluster}
use elasticell_operator.Label.{
  component_label_key, name_label_key, managed_by_label_key, instance_label_key,
  cluster_id_label_key, member_id_label_key, store_id_label_key,
}
use elasticell_operator.Util.Helpers.{set_if_not_empty}
use elasticell_operator.Effects.{nil_pointer, Result, ok, err}
use elasticell_operator.Controls.ClaimMeta
use elasticell_operator.Controls.Volumes
use elasticell_operator.Fakes.{Indexer, with_object, tracked}
use elasticell_operator.Fakes.Doubles.{
  SetDouble, ServiceDouble, PodDouble, PvDouble, PvcDouble, ClusterDouble,
}

abbrev changed : Option (StatefulSet → StatefulSet) → StatefulSet → StatefulSet
changed none set = set
changed (some change) set = change set

-- The labels that the double gives to a pod. Writing to a nil map panics.
abbrev pub test_labels : Dict String → Dict String
test_labels labels =
    set_if_not_empty
      (set_if_not_empty
        (set_if_not_empty
          (set_if_not_empty
            (set_if_not_empty
              (set_if_not_empty (set_if_not_empty labels name_label_key "cell-cluster")
                component_label_key "store")
              managed_by_label_key "cell-operator")
            instance_label_key "test")
          cluster_id_label_key "222")
        member_id_label_key "111")
      store_id_label_key "000"

module _ {I : Type 0} where
  -- `statusChange` is dropped after every creation and update, refused or not.
  abbrev forget_change : {A : Type 0} → Result A × SetDouble I → Result A × SetDouble I
  forget_change (r, f) = (r, record f { status_change = none })

  abbrev put_sets : {A : Type 0} → SetDouble I → Result A × I → Result A × SetDouble I
  put_sets f (r, i) = (r, record f { sets = i })

  abbrev pub put_services :
      {A : Type 0} → ServiceDouble I → Result A × I → Result A × ServiceDouble I
  put_services f (r, i) = (r, record f { services = i })

  abbrev put_pods : {A : Type 0} → PodDouble I → Result A × I → Result A × PodDouble I
  put_pods f (r, i) = (r, record f { pods = i })

  abbrev put_pvs : {A : Type 0} → PvDouble I → Result A × I → Result A × PvDouble I
  put_pvs f (r, i) = (r, record f { pvs = i })

  abbrev put_pvcs : {A : Type 0} → PvcDouble I → Result A × I → Result A × PvcDouble I
  put_pvcs f (r, i) = (r, record f { pvcs = i })

  abbrev put_clusters : {A : Type 0} → ClusterDouble I → Result A × I → Result A × ClusterDouble I
  put_clusters f (r, i) = (r, record f { clusters = i })

  module _ (indexer : Indexer StatefulSet I) where
    unfoldable pub create_stateful_set : StatefulSet → SetDouble I → Result (Unit {0}) × SetDouble I
    create_stateful_set set f = forget_change (
        tracked (λ f. f.create_tracker) (λ t f. record f { create_tracker = t })
          (λ f. put_sets f (indexer.add (changed f.status_change set) f.sets)) f)

    unfoldable pub update_stateful_set :
        StatefulSet → SetDouble I → Result StatefulSet × SetDouble I
    update_stateful_set set f = forget_change (
        tracked (λ f. f.update_tracker) (λ t f. record f { update_tracker = t })
          (λ f.
            let new = changed f.status_change set in
            put_sets f (with_object new (indexer.update new f.sets)))
          f)

    -- Nothing is deleted, and the tracker is not asked.
    abbrev pub delete_stateful_set : StatefulSet → SetDouble I → Result (Unit {0}) × SetDouble I
    delete_stateful_set set f = (ok tt, f)

  module _ (indexer : Indexer Service I) where
    unfoldable pub create_service : Service → ServiceDouble I → Result (Unit {0}) × ServiceDouble I
    create_service svc f =
        tracked (λ f. f.create_tracker) (λ t f. record f { create_tracker = t })
          (λ f. put_services f (indexer.add svc f.services)) f

    unfoldable pub update_service : Service → ServiceDouble I → Result Service × ServiceDouble I
    update_service svc f =
        tracked (λ f. f.update_tracker) (λ t f. record f { update_tracker = t })
          (λ f. put_services f (with_object svc (indexer.update svc f.services))) f

    abbrev pub delete_service : Service → ServiceDouble I → Result (Unit {0}) × ServiceDouble I
    delete_service svc f = (ok tt, f)

  module _ (indexer : Indexer Pod I) where
    abbrev label_pod : Pod → Dict String → PodDouble I → Result Pod × PodDouble I
    label_pod pod [] f = (err nil_pointer, f)
    label_pod pod (l ∷ labels) f =
        let new = record pod { labels = test_labels (l ∷ labels) } in
        put_pods f (with_object new (indexer.update new f.pods))

    -- A method of four trackers: the first that refuses ends it, and those before it count.
    unfoldable pub update_pod_meta_info : Pod → PodDouble I → Result Pod × PodDouble I
    update_pod_meta_info pod =
        tracked (λ f. f.update_tracker) (λ t f. record f { update_tracker = t })
          (tracked (λ f. f.cluster_tracker) (λ t f. record f { cluster_tracker = t })
            (tracked (λ f. f.member_tracker) (λ t f. record f { member_tracker = t })
              (tracked (λ f. f.store_tracker) (λ t f. record f { store_tracker = t })
                (label_pod pod pod.labels))))

    unfoldable pub delete_pod : Pod → PodDouble I → Result (Unit {0}) × PodDouble I
    delete_pod pod =
        tracked (λ f. f.delete_tracker) (λ t f. record f { delete_tracker = t })
          (λ f. put_pods f (indexer.delete pod f.pods))

    unfoldable pub update_pod : Pod → PodDouble I → Result Pod × PodDouble I
    update_pod pod =
        tracked (λ f. f.update_tracker) (λ t f. record f { update_tracker = t })
          (λ f. put_pods f (with_object pod (indexer.update pod f.pods)))

  module _ (indexer : Indexer Pv I) (get_pvc : String → String → Result Pvc) where
    unfoldable pub patch_pv_reclaim_policy :
        Pv → String → PvDouble I → Result (Unit {0}) × PvDouble I
    patch_pv_reclaim_policy pv policy =
        tracked (λ f. f.update_tracker) (λ t f. record f { update_tracker = t })
          (λ f. put_pvs f (indexer.update (record pv { reclaim_policy = policy }) f.pvs))

    abbrev label_pv : String → Pv → Result Pvc → PvDouble I → Result Pv × PvDouble I
    label_pv ns pv (err e) f = (err e, f)
    label_pv ns pv (ok pvc) f =
        let new = Volumes.with_meta ns pvc pv in
        put_pvs f (with_object new (indexer.update new f.pvs))

    abbrev label_claimed : String → Pv → Option String → PvDouble I → Result Pv × PvDouble I
    label_claimed ns pv none f = (err nil_pointer, f)
    label_claimed ns pv (some name) f = label_pv ns pv (get_pvc ns name) f

    -- The labels are those of the control that it stands for, synced or not.
    unfoldable pub update_pv_meta_info : CellCluster → Pv → PvDouble I → Result Pv × PvDouble I
    update_pv_meta_info cluster pv =
        tracked (λ f. f.update_tracker) (λ t f. record f { update_tracker = t })
          (label_claimed cluster.namespace pv pv.claim_ref)

  abbrev no_object : {A : Type 0} → Result (Unit {0}) × I → Result (Option A) × I
  no_object (ok u, i) = (ok none, i)
  no_object (err e, i) = (err e, i)

  module _ (indexer : Indexer Pvc I) where
    unfoldable pub delete_pvc : Pvc → PvcDouble I → Result (Unit {0}) × PvcDouble I
    delete_pvc pvc =
        tracked (λ f. f.delete_tracker) (λ t f. record f { delete_tracker = t })
          (λ f. put_pvcs f (indexer.delete pvc f.pvcs))

    unfoldable pub update_pvc : Pvc → PvcDouble I → Result Pvc × PvcDouble I
    update_pvc pvc =
        tracked (λ f. f.update_tracker) (λ t f. record f { update_tracker = t })
          (λ f. put_pvcs f (with_object pvc (indexer.update pvc f.pvcs)))

    -- The claim is labelled, and nil is returned in its place.
    unfoldable pub update_pvc_meta_info :
        Pvc → Pod → PvcDouble I → Result (Option Pvc) × PvcDouble I
    update_pvc_meta_info pvc pod =
        tracked (λ f. f.update_tracker) (λ t f. record f { update_tracker = t })
          (λ f. put_pvcs f (no_object (indexer.update (ClaimMeta.with_meta pvc pod) f.pvcs)))

  -- The cluster is returned with an error too.
  unfoldable pub update_cell_cluster :
      Indexer CellCluster I → CellCluster → ClusterDouble I → Result CellCluster × ClusterDouble I
  update_cell_cluster indexer cluster =
      tracked (λ f. f.update_tracker) (λ t f. record f { update_tracker = t })
        (λ f. put_clusters f (with_object cluster (indexer.update cluster f.clusters)))
