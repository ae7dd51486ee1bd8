-- ===== src/Member/ServiceSync/Repeats.antt =====
-- Services that are updated again and again (pd_member_manager.go, store_member_manager.go).
use elasticell_operator.Base.{String, false, ◌≡◌, ◌≢◌, refl, ◌∙◌, ◌∷◌, arith}
use elasticell_operator.Api.Objects.{Service, ServiceSpec}
use elasticell_operator.Api.Cluster.{CellCluster}
use elasticell_operator.Names.{pd_member_name, pd_peer_member_name, store_peer_name}
use elasticell_operator.Effects.{ok, World, Env, service_at, update_service, request}
use elasticell_operator.Member.Config.{
  service_equal, set_service_last_applied_config, annotate, last_applied_config_annotation,
}
use elasticell_operator.Member.Builders.Services.{
  get_new_pd_service, get_new_pd_headless_service, get_new_store_headless_service,
}
use elasticell_operator.Member.Update.Lost.{annotation-annotate}
use elasticell_operator.Member.ServiceSync.{
  respecified, sync_pd_service, sync_pd_headless_service, sync_store_headless_service,
  update_unannotated, update_annotated,
}

-- Whether a service counts as changed depends on the annotation alone, and the copy that is sent
-- has the old one's.
service_equal-respecified :
    (env : Env) (new old : Service)
    → service_equal env new (respecified new old) ≡ service_equal env new old
unfolding service_equal
service_equal-respecified env new old = refl

-- A peer service of PD whose recorded configuration differs from the wanted one is sent to the API
-- server, and the service that is sent still counts as different. So when the cache holds it (in
-- any world v for the same cluster), the next sync sends it again. The encoder accepts the spec.
pub pd_headless_repeats :
    (env : Env) (w v : World) (old : Service) (text : String)
    → service_at env w.cc.namespace (pd_peer_member_name w.cc.name) w.services ≡ ok old
    → service_equal env (get_new_pd_headless_service w.cc) old ≡ ok false
    → env.encode_service_spec (get_new_pd_headless_service w.cc).spec ≡ ok text
    → v.cc ≡ w.cc
    → service_at env v.cc.namespace (pd_peer_member_name v.cc.name) v.services
      ≡ ok (respecified (get_new_pd_headless_service w.cc) old)
    → ((sync_pd_headless_service env w).1.calls
        ≡ update_service (respecified (get_new_pd_headless_service w.cc) old) ∷ w.calls)
      × ((sync_pd_headless_service env v).1.calls
          ≡ update_service (respecified (get_new_pd_headless_service w.cc) old) ∷ v.calls)
unfolding sync_pd_headless_service update_unannotated set_service_last_applied_config request
pd_headless_repeats env w v old text found ne enc same cached = (
  ground arith,
  ground (arith, service_equal-respecified env (get_new_pd_headless_service w.cc) old),
)

-- The same holds of the peer service of the stores.
pub store_headless_repeats :
    (env : Env) (w v : World) (old : Service) (text : String)
    → service_at env w.cc.namespace (store_peer_name w.cc.name) w.services ≡ ok old
    → service_equal env (get_new_store_headless_service w.cc) old ≡ ok false
    → env.encode_service_spec (get_new_store_headless_service w.cc).spec ≡ ok text
    → v.cc ≡ w.cc
    → service_at env v.cc.namespace (store_peer_name v.cc.name) v.services
      ≡ ok (respecified (get_new_store_headless_service w.cc) old)
    → ((sync_store_headless_service env w).1.calls
        ≡ update_service (respecified (get_new_store_headless_service w.cc) old) ∷ w.calls)
      × ((sync_store_headless_service env v).1.calls
          ≡ update_service (respecified (get_new_store_headless_service w.cc) old) ∷ v.calls)
unfolding sync_store_headless_service update_unannotated set_service_last_applied_config request
store_headless_repeats env w v old text found ne enc same cached = (
  ground arith,
  ground (arith, service_equal-respecified env (get_new_store_headless_service w.cc) old),
)

abbrev pub recorded : Service → Service → String → Service
recorded new old text = record (respecified new old) {
  annotations = annotate last_applied_config_annotation text old.annotations;
}

recorded-differs :
    (env : Env) (new old : Service) (text : String)
    → env.decode_service_spec text ≡ ok (respecified new old).spec
    → env.eq_service_spec (respecified new old).spec new.spec ≡ false
    → service_equal env new (recorded new old text) ≡ ok false
unfolding service_equal
recorded-differs env new old text d ne =
    ground (arith, annotation-annotate last_applied_config_annotation text old.annotations)

pd_service_ip : (cluster : CellCluster) → (get_new_pd_service cluster).spec.cluster_ip ≡ ""
unfolding get_new_pd_service
pd_service_ip cluster = refl

-- The client service of PD is annotated when it is sent, but with the cluster IP that it was given,
-- which the wanted service never has. If specs with different cluster IPs compare as different and
-- the recorded text decodes to what was encoded, an update of a service whose cluster IP is not
-- empty is followed by another at the next sync.
pub pd_service_repeats :
    (env : Env) (w v : World) (old : Service) (text : String)
    → service_at env w.cc.namespace (pd_member_name w.cc.name) w.services ≡ ok old
    → service_equal env (get_new_pd_service w.cc) old ≡ ok false
    → env.encode_service_spec (respecified (get_new_pd_service w.cc) old).spec ≡ ok text
    → env.decode_service_spec text ≡ ok (respecified (get_new_pd_service w.cc) old).spec
    → ((a b : ServiceSpec) → a.cluster_ip ≢ b.cluster_ip → env.eq_service_spec a b ≡ false)
    → old.spec.cluster_ip ≢ ""
    → v.cc ≡ w.cc
    → service_at env v.cc.namespace (pd_member_name v.cc.name) v.services
      ≡ ok (recorded (get_new_pd_service w.cc) old text)
    → let new = get_new_pd_service w.cc in
      let sent = recorded new old text in
      ((sync_pd_service env w).1.calls ≡ update_service sent ∷ w.calls)
      × (service_equal env new sent ≡ ok false)
      × ((sync_pd_service env v).1.calls ≡ update_service (recorded new sent text) ∷ v.calls)
unfolding sync_pd_service update_annotated set_service_last_applied_config request
pd_service_repeats env w v old text found ne enc dec by_ip given same cached =
    let new = get_new_pd_service w.cc in
    let differs =
      recorded-differs env new old text dec
        (by_ip (respecified new old).spec new.spec (λ e. given (e ∙ pd_service_ip w.cc))) in
    (ground arith, differs, ground (arith, differs))
