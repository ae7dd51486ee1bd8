-- ===== src/Control/Writes.antt =====
-- The write of the status with its retries (cell_cluster_control.go and cellcluster_control.go).
use elasticell_operator.Base.{◌≡◌, true, false, Option, none, some, List, [], ◌∷◌, arith}
use elasticell_operator.Api.Cluster.{CellCluster, ClusterStatus}
use elasticell_operator.Effects.{Error, Result, ok, err, Call, update_cluster, World, Env, request}
use elasticell_operator.Controls.Client.{update, Client, record_event}
use elasticell_operator.Controls.Updates
use elasticell_operator.Controls.Updates.Kept.{opened, recovers}
use elasticell_operator.Control.{sync_cluster, update_cell_cluster, errors_of}

abbrev error_of : {A : Type 0} → Result A → Option Error
error_of (ok a) = none
error_of (err e) = some e

abbrev with_status : ClusterStatus → CellCluster → CellCluster
with_status status cluster = record cluster { status = status }

abbrev written :
    Env → Client CellCluster → (List Call → Call → Option Error) → List Call → Call → Option Error
written env client reply calls (update_cluster cluster new old) =
    error_of (Updates.update_cell_cluster env client cluster new old (opened cluster)).0
written env client reply calls c = reply calls c

-- The environment in which the status is written by the control.
abbrev pub writing : Env → Client CellCluster → Env
writing env client = record env { reply = written env client env.reply }

module _ (env : Env) (client : Client CellCluster) where
  write_recovers :
      (cluster newer u : CellCluster) (new old : ClusterStatus) (e : Error)
      → client.answer [] (update cluster) ≡ err e
      → client.retry.is_conflict e ≡ true
      → client.get (update cluster ∷ []) cluster.name ≡ ok newer
      → client.answer (update cluster ∷ []) (update (with_status cluster.status newer)) ≡ ok u
      → (Updates.update_cell_cluster env client cluster new old (opened cluster)).0 ≡ ok u
  unfolding Updates.update_cell_cluster record_event
  write_recovers cluster newer u new old e refused conflict cached accepted = ground (
    arith,
    recovers client cluster.name (with_status cluster.status) 3 cluster newer u e refused conflict
        cached accepted,
  )

  -- If the write of a changed status is refused at first with a conflict, and the lister then has a
  -- newer cluster that the server accepts with the status of the sync, the write succeeds: only the
  -- error of the stages is returned, if there is one.
  pub status_write_recovers :
      (w v : World) (r : Result (Unit {0})) (newer u : CellCluster) (e : Error)
      → sync_cluster (writing env client) w ≡ (r, v)
      → env.eq_status v.cc.status w.cc.status ≡ false
      → client.answer [] (update v.cc) ≡ err e
      → client.retry.is_conflict e ≡ true
      → client.get (update v.cc ∷ []) v.cc.name ≡ ok newer
      → client.answer (update v.cc ∷ []) (update (with_status v.cc.status newer)) ≡ ok u
      → (update_cell_cluster (writing env client) w).0 ≡ errors_of r
  unfolding update_cell_cluster request
  status_write_recovers w v r newer u e synced changed refused conflict cached accepted =
      let done =
        write_recovers v.cc newer u v.cc.status w.cc.status e refused conflict cached accepted in
      ground arith
