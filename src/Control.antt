-- ===== src/Control.antt =====
-- pkg/controller/cellcluster/cell_cluster_control.go: one sync of a cluster, from the reclaim
-- policies to the labels, and the write of the status that it leaves.
pub mod Stages
pub mod Writes
pub mod Replicas
use elasticell_operator.Base.{Bool, true, false, List, [], ◌∷◌, ◌++◌, if◌then◌else◌, String}
use elasticell_operator.Effects.{
  Error, Result, ok, err, update_cluster, World, Env, M, gets, ◌>>=◌, ◌>>◌, request,
}
use elasticell_operator.Member.Orphans
use elasticell_operator.Member.PdManager
use elasticell_operator.Member.StoreManager
use elasticell_operator.Member.ProxyManager
use elasticell_operator.Meta.Reclaim
use elasticell_operator.Meta.Sync

module _ (env : Env) where
  unfoldable pub sync_pd : M (Unit {0})
  sync_pd = do Reclaim.sync env; Orphans.clean env; PdManager.sync env

  -- After PD come the stores, then the proxies and the labels; the first error ends the sync.
  unfoldable pub sync_proxy : M (Unit {0})
  sync_proxy = do ProxyManager.sync env; Sync.sync env (Sync.real env)

  unfoldable pub sync_store : M (Unit {0})
  sync_store = do StoreManager.sync env; sync_proxy

  unfoldable pub sync_cluster : M (Unit {0})
  sync_cluster = do sync_pd; sync_store

abbrev pub errors_of : Result (Unit {0}) → List Error
errors_of (ok u) = []
errors_of (err e) = e ∷ []

abbrev merge : List Error → Result (Unit {0}) × World → List Error × World
merge errs (r, w) = (errs ++ errors_of r, w)

-- The status is written, also after an error, whenever it is not the one before; the errors of
-- the sync and of the write are returned together.
unfoldable pub update_cell_cluster : Env → World → List Error × World
update_cell_cluster env w =
    let (r, v) = sync_cluster env w in
    if env.eq_status v.cc.status w.cc.status
    then (errors_of r, v)
    else merge (errors_of r) (request env (update_cluster v.cc v.cc.status w.cc.status) v)
