-- ===== src/Tests/Writes.antt =====
-- A sync whose write of the status is refused once.
use elasticell_operator.Base.{false, ◌≡◌, refl, List, [], ◌∷◌}
use elasticell_operator.Api.Cluster.{CellCluster}
use elasticell_operator.Effects.{World, remote, Result, ok, err}
use elasticell_operator.Controls.Client.{Request, Client}
use elasticell_operator.Control.{sync_cluster, update_cell_cluster, errors_of}
use elasticell_operator.Control.Writes.{writing, status_write_recovers}
use elasticell_operator.Tests.Data.{env, world, cluster}
use elasticell_operator.Tests.Clients.{looping}

abbrev newer : CellCluster
newer = record cluster { uid = "2" }

-- The first request is a conflict, all later ones are not.
abbrev answer : List (Request CellCluster) → Request CellCluster → Result CellCluster
answer [] q = err (remote 409)
answer (r ∷ rs) q = ok newer

abbrev clusters : Client CellCluster
clusters = record {
  answer = answer;
  deleted = λ h name. ok tt;
  get = λ h name. ok newer;
  is_already_exists = λ e. false;
  show = λ e. "error";
  retry = looping;
}

abbrev synced : Result (Unit {0}) × World
synced = sync_cluster (writing env clusters) world

status_write_recovers_example :
    (update_cell_cluster (writing env clusters) world).0 ≡ errors_of synced.0
status_write_recovers_example =
    status_write_recovers env clusters world synced.1 synced.0 newer newer (remote 409) refl refl
      refl refl refl refl
