-- ===== src/Member/ServiceSync.antt =====
-- `syncPDServiceForCellCluster` and `syncPDHeadlessServiceForCellCluster` of
-- pd_member_manager.go, and `syncStoreHeadlessServiceForCellCluster` of store_member_manager.go.
-- The headless ones differ from the first in one word: they annotate the new service, and send
-- the copy of the old one, which keeps the old annotation.
pub mod Repeats
use elasticell_operator.Base.{
  String, Bool, true, false, ◌&&◌, Option, none, some, List, [], ◌∷◌, Dict, ◌==◌, if◌then◌else◌,
}
use elasticell_operator.Api.Objects.{Service}
use elasticell_operator.Effects.{
  Error, not_found, Result, ok, err, create_service, update_service, World, Env, M, pure, fail,
  lift, gets, modify, ◌>>=◌, ◌>>◌, service_at, request,
}
use elasticell_operator.Names.{store_peer_name, pd_member_name, pd_peer_member_name}
use elasticell_operator.Member.Config.{set_service_last_applied_config, service_equal}
use elasticell_operator.Member.Builders.Services.{
  get_new_pd_service, get_new_pd_headless_service, get_new_store_headless_service,
}
use elasticell_operator.Member.Update.{shared}

abbrev pub cache_service : Service → List Service → List Service
cache_service svc [] = []
cache_service svc (s ∷ ss) =
    if s.name == svc.name && s.namespace == svc.namespace
    then svc ∷ ss
    else s ∷ cache_service svc ss

-- The old service with the new spec and its own cluster IP.
abbrev pub respecified : Service → Service → Service
respecified new old = record old { spec = record (new.spec) { cluster_ip = old.spec.cluster_ip } }

-- The annotations of the copy are those of the cached service, unless they were nil.
abbrev pub write_annotations : Service → Service → World → World
write_annotations old written w = record w {
  services =
      cache_service (record old { annotations = shared old.annotations written.annotations })
        w.services;
}

module _ (env : Env) where
  unfoldable pub create_new_service : Service → M (Unit {0})
  create_new_service new = do
    applied ← lift (set_service_last_applied_config env new)
    request env (create_service applied)

  unfoldable pub update_annotated : Service → Service → M (Unit {0})
  update_annotated new old = do
    applied ← lift (set_service_last_applied_config env (respecified new old))
    modify (write_annotations old applied)
    request env (update_service applied)

  unfoldable pub update_unannotated : Service → Service → M (Unit {0})
  update_unannotated new old = do
    lift (set_service_last_applied_config env new)
    request env (update_service (respecified new old))

  abbrev if_changed : Service → Service → (Service → Service → M (Unit {0})) → M (Unit {0})
  if_changed new old update = do
    equal ← lift (service_equal env new old)
    elim equal [ true ↦ pure tt | false ↦ update new old ]

  abbrev pub sync_found :
      Service → (Service → Service → M (Unit {0})) → Result Service → M (Unit {0})
  sync_found new update (ok old) = if_changed new old update
  sync_found new update (err not_found) = create_new_service new
  sync_found new update (err e) = fail e

  unfoldable pub sync_pd_service : M (Unit {0})
  sync_pd_service w =
      sync_found (get_new_pd_service w.cc) update_annotated
        (service_at env w.cc.namespace (pd_member_name w.cc.name) w.services) w

  unfoldable pub sync_pd_headless_service : M (Unit {0})
  sync_pd_headless_service w =
      sync_found (get_new_pd_headless_service w.cc) update_unannotated
        (service_at env w.cc.namespace (pd_peer_member_name w.cc.name) w.services) w

  unfoldable pub sync_store_headless_service : M (Unit {0})
  sync_store_headless_service w =
      sync_found (get_new_store_headless_service w.cc) update_unannotated
        (service_at env w.cc.namespace (store_peer_name w.cc.name) w.services) w
