-- ===== src/Controller/Owed.antt =====
-- No cluster that changed, or whose sync failed, is lost by the controller
-- (cell_cluster_controller.go).
use elasticell_operator.Base.{
  String, Bool, ◌&&◌, true, ◌≡◌, Option, none, some, List, [], ◌∷◌, ◌==◌, if◌then◌else◌, arith,
}
use elasticell_operator.Api.Cluster.{CellCluster}
use elasticell_operator.Api.Objects.{OwnerReference}
use elasticell_operator.Effects.{Error, Result, ok, err, Env}
use elasticell_operator.Controller
use elasticell_operator.Controller.{
  Observed, Deleted, object, tombstone, Caches, resolve_cell_cluster_from_set, enqueue_cell_cluster,
  delete_stateful_set, add_stateful_set, update_stateful_set, sync, finish, process_next_work_item,
}
use elasticell_operator.Controller.WorkQueue.{Queue}

-- What the informers report.
pub data Notice : Type 0 where
  cluster_changed : CellCluster → Notice
  set_added : Observed → Notice
  set_updated : Observed → Observed → Notice
  set_deleted : Deleted → Notice

abbrev key_if : Result String → Option String
key_if (ok k) = some k
key_if (err e) = none

abbrev same_owner : String → String → CellCluster → Bool
same_owner kind uid cluster = kind == "CellCluster" && cluster.uid == uid

module _ (caches : Caches) where
  abbrev key_if_owner : OwnerReference → Result CellCluster → Option String
  key_if_owner ref (err e) = none
  key_if_owner ref (ok cluster) =
      if same_owner ref.kind ref.uid cluster then key_if (caches.key_of cluster) else none

  abbrev key_of_ref : String → Option OwnerReference → Option String
  key_of_ref ns none = none
  key_of_ref ns (some ref) = key_if_owner ref (caches.get_cluster ns ref.name)

  -- The key of the cluster that a StatefulSet belongs to: the one that its controller reference
  -- names, if the lister has that cluster under the same uid.
  abbrev pub owner_key : Observed → Option String
  owner_key x = key_of_ref x.set.namespace (caches.controller_of x.set)

  -- The key of the cluster that a notice is about; a StatefulSet that did not change is about none.
  abbrev pub concerns : Notice → Option String
  concerns (cluster_changed cluster) = key_if (caches.key_of cluster)
  concerns (set_added x) = owner_key x
  concerns (set_updated old cur) =
      if cur.resource_version == old.resource_version then none else owner_key cur
  concerns (set_deleted (object x)) = owner_key x
  concerns (set_deleted (tombstone t)) = none

  module _ {Q : Type 0} (queue : Queue Q) where
    abbrev pub react : Notice → Q → Result Q
    react (cluster_changed cluster) q = ok (enqueue_cell_cluster caches queue cluster q)
    react (set_added x) q = add_stateful_set caches queue x q
    react (set_updated old cur) q = update_stateful_set caches queue old cur q
    react (set_deleted d) q = delete_stateful_set caches queue d q

    pub react_pending :
        (n : Notice) (q r : Q) (k : String)
        → react n q ≡ ok r
        → concerns n ≡ some k
        → queue.pending k r ≡ true
    unfolding enqueue_cell_cluster delete_stateful_set add_stateful_set update_stateful_set
        resolve_cell_cluster_from_set
    react_pending (cluster_changed cluster) q r k h c = grind (arith, queue.add_pending k q)
    react_pending (set_added x) q r k h c = ground (arith, queue.add_pending k q)
    react_pending (set_updated old cur) q r k h c = ground (arith, queue.add_pending k q)
    react_pending (set_deleted (object x)) q r k h c = ground (arith, queue.add_pending k q)
    react_pending (set_deleted (tombstone t)) q r k h c = ground arith

    add_keeps :
        (k : Result String) (q : Q) (j : String)
        → queue.pending j q ≡ true
        → queue.pending j (Controller.add_key caches queue k q) ≡ true
    add_keeps (ok k) q j p = queue.add_keeps j k q p
    add_keeps (err e) q j p = p

    resolved_keeps :
        (o : Option CellCluster) (q : Q) (j : String)
        → queue.pending j q ≡ true
        → queue.pending j (Controller.enqueue_resolved caches queue o q) ≡ true
    unfolding enqueue_cell_cluster
    resolved_keeps none q j p = p
    resolved_keeps (some cluster) q j p = add_keeps (caches.key_of cluster) q j p

    pub react_keeps :
        (n : Notice) (q r : Q) (j : String)
        → react n q ≡ ok r
        → queue.pending j q ≡ true
        → queue.pending j r ≡ true
    unfolding enqueue_cell_cluster delete_stateful_set add_stateful_set update_stateful_set
    react_keeps (cluster_changed cluster) q r j h p =
        ground (arith, add_keeps (caches.key_of cluster) q j p)
    react_keeps (set_added x) q r j h p =
        let o = resolve_cell_cluster_from_set caches x.set.namespace x.set in
        ground (arith, resolved_keeps o q j p)
    react_keeps (set_updated old cur) q r j h p =
        let o = resolve_cell_cluster_from_set caches cur.set.namespace cur.set in
        ground (arith, resolved_keeps o q j p)
    react_keeps (set_deleted (tombstone t)) q r j h p = ground arith
    react_keeps (set_deleted (object x)) q r j h p =
        let o = resolve_cell_cluster_from_set caches x.set.namespace x.set in
        ground (arith, resolved_keeps o q j p)

    pub finish_keeps :
        (env : Env) (k : String) (errs : List Error) (q : Q) (j : String)
        → queue.pending j q ≡ true
        → queue.pending j (finish caches env queue k errs q) ≡ true
    unfolding finish
    finish_keeps env k [] q j p = queue.done_keeps j k _ (queue.forget_keeps j k q p)
    finish_keeps env k (e ∷ errs) q j p = queue.done_keeps j k _ (queue.limited_keeps j k q p)

    pub failed_pending :
        (env : Env) (k : String) (e : Error) (errs : List Error) (q : Q)
        → queue.pending k (finish caches env queue k (e ∷ errs) q) ≡ true
    unfolding finish
    failed_pending env k e errs q = queue.done_keeps k k _ (queue.limited_pending k q)
