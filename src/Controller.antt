-- ===== src/Controller.antt =====
-- pkg/controller/cellcluster/cell_cluster_controller.go: events of clusters and StatefulSets become
-- keys in the work queue, and workers sync the keys.
pub mod WorkQueue
pub mod Owed
pub mod Lost
use elasticell_operator.Base.{
  String, Bool, true, false, Option, none, some, List, [], ◌∷◌, ◌==◌, if◌then◌else◌,
}
use elasticell_operator.Api.Objects.{StatefulSet, OwnerReference}
use elasticell_operator.Api.Cluster.{CellCluster}
use elasticell_operator.Effects.{Error, not_found, nil_pointer, Result, ok, err, World, Env}
use elasticell_operator.Control
use elasticell_operator.Controller.WorkQueue.{Queue}

-- A StatefulSet as the informer reports it.
pub record Observed : Type 0 where
  pub set : StatefulSet
  pub deleting : Bool
  pub resource_version : String

-- What a deletion is reported with: the object, or a tombstone for it.
pub data Deleted : Type 0 where
  object : Observed → Deleted
  tombstone : Option Observed → Deleted

-- The lister of clusters, and the helpers for keys and controllers of apimachinery and client-go;
-- the key of a cluster whose deletion is reported by a tombstone is the cluster's too.
pub record Caches : Type 0 where
  pub get_cluster : String → String → Result CellCluster
  pub key_of : CellCluster → Result String
  pub split_key : String → Result (String × String)
  pub controller_of : StatefulSet → Option OwnerReference

abbrev pub controller_kind : String
controller_kind = "CellCluster"

module _ (caches : Caches) where
  abbrev of_uid : String → Result CellCluster → Option CellCluster
  of_uid uid (err e) = none
  of_uid uid (ok cluster) = if cluster.uid == uid then some cluster else none

  abbrev of_ref : String → Option OwnerReference → Option CellCluster
  of_ref ns none = none
  of_ref ns (some ref) =
      if ref.kind == controller_kind then of_uid ref.uid (caches.get_cluster ns ref.name) else none

  unfoldable pub resolve_cell_cluster_from_set : String → StatefulSet → Option CellCluster
  resolve_cell_cluster_from_set ns set = of_ref ns (caches.controller_of set)

  module _ {Q : Type 0} (queue : Queue Q) where
    abbrev pub add_key : Result String → Q → Q
    add_key (err e) q = q
    add_key (ok key) q = queue.add key q

    unfoldable pub enqueue_cell_cluster : CellCluster → Q → Q
    enqueue_cell_cluster cluster q = add_key (caches.key_of cluster) q

    abbrev pub enqueue_resolved : Option CellCluster → Q → Q
    enqueue_resolved none q = q
    enqueue_resolved (some cluster) q = enqueue_cell_cluster cluster q

    -- The namespace of what is no StatefulSet is read through a nil pointer, before the tombstone
    -- is looked at.
    unfoldable pub delete_stateful_set : Deleted → Q → Result Q
    delete_stateful_set (tombstone t) q = err nil_pointer
    delete_stateful_set (object x) q =
        ok (enqueue_resolved (resolve_cell_cluster_from_set x.set.namespace x.set) q)

    unfoldable pub add_stateful_set : Observed → Q → Result Q
    add_stateful_set x q = elim x.deleting [
      | true ↦ delete_stateful_set (object x) q
      | false ↦ ok (enqueue_resolved (resolve_cell_cluster_from_set x.set.namespace x.set) q)
    ]

    unfoldable pub update_stateful_set : Observed → Observed → Q → Result Q
    update_stateful_set old cur q = elim (cur.resource_version == old.resource_version) [
      | true ↦ ok q
      | false ↦ ok (enqueue_resolved (resolve_cell_cluster_from_set cur.set.namespace cur.set) q)
    ]

  module _ (env : Env) where
    -- A cluster that is gone needs no sync.
    abbrev sync_found : Result CellCluster → World → List Error × World
    sync_found (err not_found) w = ([], w)
    sync_found (err e) w = (e ∷ [], w)
    sync_found (ok cluster) w = Control.update_cell_cluster env (record w { cc = cluster })

    abbrev sync_key : Result (String × String) → World → List Error × World
    sync_key (err e) w = (e ∷ [], w)
    sync_key (ok (ns, name)) w = sync_found (caches.get_cluster ns name) w

    unfoldable pub sync : String → World → List Error × World
    sync key w = sync_key (caches.split_key key) w

    module _ {Q : Type 0} (queue : Queue Q) where
      -- A key whose sync failed is added again after a while, whatever the error.
      abbrev pub settle : String → List Error → Q → Q
      settle key [] q = queue.forget key q
      settle key (e ∷ errs) q = queue.add_rate_limited key q

      -- The end of `processNextWorkItem`, with its deferred call.
      unfoldable pub finish : String → List Error → Q → Q
      finish key errs q = queue.done key (settle key errs q)

      abbrev pub process : Option (String × Q) → Q → World → Bool × Q × World
      process none q w = (false, q, w)
      process (some (key, taken)) q w =
          let (errs, v) = sync key w in (true, finish key errs taken, v)

      -- `get` is `none` once the queue is shut down.
      unfoldable pub process_next_work_item : Q → World → Bool × Q × World
      process_next_work_item q w = process (queue.get q) q w
