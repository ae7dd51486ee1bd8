-- ===== src/Lib.antt =====
-- elasticell-operator runs Elasticell clusters on Kubernetes. A CellCluster names a cluster of PD
-- servers, stores and proxies. The controller watches the CellClusters and, for each, brings the
-- StatefulSets, services, pods, claims and volumes to what it wants. A scheduler extender spreads the
-- pods over the nodes, and a discovery service tells the pods of PD about each other.
--
-- How the parts interact. pkg/controller/cellcluster syncs one cluster at a time: reclaim policies,
-- orphan pods, PD, the stores, the proxies, labels, and then the write of the status that they left.
-- Each manager of pkg/manager/member builds the StatefulSet that it wants, compares it with the one
-- in the lister's cache by an annotation that holds the configuration applied last, lets its upgrader
-- set the partition of the rolling update, lets its scaler set the replicas, and asks for the update.
-- The managers tell each other how far they are only through the status of the CellCluster.
--
-- The files, and the code that they model:
--   Base        Boolean tests, lists, Go's maps as association lists, 32-bit signed integers that wrap.
--   Api         pkg/apis/deepfabric.com/v1alpha1: types.go (Cluster) and cellcluster.go (Status), and
--               the objects of Kubernetes with the fields that the operator reads (Pods, Objects).
--   Label       pkg/label/label.go.
--   Names       the names of objects, from pkg/controller/controller_utils.go and pkg/manager/member.
--   Util        pkg/util/util.go, and the rest of pkg/controller/controller_utils.go.
--   Effects     how a manager acts. `World` is what a sync reads and writes: the CellCluster, the new
--               StatefulSet, the listers' caches and the requests made, the newest first. `Env` is
--               what others decide. `M` is a state monad with errors in which what was written before
--               an error stays written, as in Go.
--   Member      pkg/manager/member: utils.go (Config), pd_upgrader.go, store_upgrader.go and
--               proxy_upgrader.go, scaler.go and store_scaler.go, store_failover.go,
--               orphan_pods_cleaner.go (Orphans), the three managers (with StoreLabels, whose only
--               call is commented out), what their syncs share (Update, ServiceSync, Revisions)
--               and what they build (Builders). Rollout says what a rolling update may do.
--   Controls    pkg/controller/{pod,pvc,pv,stateful_set,service,cellcluster}_control.go: UpdateMetaInfo
--               of pods (PodMeta), claims (ClaimMeta) and volumes (Volumes), and creating, updating and
--               deleting objects (Updates). A `Client` is what a control asks of the API server and
--               of the lister for one kind of object; a `Desk` holds the object that an update's
--               closure has, and the requests and events made. `Retry` is the contract of client-go's
--               RetryOnConflict, and Retry.Rules what follows from it for any closure.
--   Meta        pkg/manager/meta: reclaim_policy_manager.go (Reclaim) and meta_manager.go (Sync).
--   Control     pkg/controller/cellcluster/cell_cluster_control.go.
--   Controller  pkg/controller/cellcluster/cell_cluster_controller.go. WorkQueue is the contract of
--               client-go's work queue; Lost has informers and any number of workers as steps.
--   PdClient    pkg/controller/pd_control.go and etcd_client.go; Wired puts the client in the place
--               of the answers of PD that the managers take as parameters.
--   Fakes       the doubles of pkg/controller that other packages' tests use, beside the controls and
--               the PD client that they stand for.
--   Scheduler   pkg/scheduler/scheduler.go (Filter), pkg/scheduler/predicates (Ha) and
--               pkg/scheduler/server/mux.go (Handlers).
--   Discovery   pkg/discovery/discovery.go, and pkg/discovery/server/mux.go (Handlers).
--   Tests       the theorems at concrete clusters.
-- The names are those of the code in antt's spelling, a method under the name of its file or type:
-- `syncCellClusterStatus` of the PD manager is `sync_pd_status` of Member.PdManager.
--
-- Conventions. A lister returns a pointer into its cache, so what the code writes through it is
-- written to the `World` too. In the managers an update with its retries is one request. A nil map
-- of annotations is `none`; of labels it is the empty map. A nil pointer that the code follows is
-- the error `nil_pointer`. Ranging over a map follows the association list; where the order could
-- matter the comment there says so, and discovery takes it as a parameter. All loops recurse on a
-- list or on the number of ordinals, so there is no fuel; an update is tried at most as often as
-- its backoff has steps, five or four times. Counts are `int32` and wrap. Times are nanoseconds
-- since 1970, and 0 is Go's zero time.
--
-- Parameters. The API server's answer to each request, faults of the listers, the clock and the text
-- of times, quantities and numbers, JSON encodings, deep equality, the HTTP interface and the etcd of
-- PD, client-go's retry loop and work queue with the behaviour that they document, and the owner and
-- the key of an object.
--
-- Not modelled: the wiring of the controller (NewController, Run), the fakes of the managers, which
-- do nothing or return an error that was set, the start of the processes, generated code and vendored
-- libraries.
pub mod Base
pub mod Api
pub mod Label
pub mod Effects
pub mod Names
pub mod Util
pub mod Member
pub mod Controls
pub mod Meta
pub mod Scheduler
pub mod Control
pub mod Controller
pub mod PdClient
pub mod Discovery
pub mod Fakes
pub mod Tests
