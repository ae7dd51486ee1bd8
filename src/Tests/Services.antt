-- ===== src/Tests/Services.antt =====
-- Updates that are repeated or lost.
use elasticell_operator.Base.{
  ◌≡◌, ◌≢◌, refl, ◌==◌, eq_iff, true, false, none, some, [], ◌∷◌, arith, String,
}
use elasticell_operator.Api.Objects.{Service, ServiceSpec, StatefulSet}
use elasticell_operator.Effects.{Env, not_found, ok, err, World, update_service, service_at, set_at}
use elasticell_operator.Names.{pd_peer_member_name}
use elasticell_operator.Member.Config.{service_equal, stateful_set_equal}
use elasticell_operator.Member.Builders.Services.{
  get_new_pd_service, get_new_pd_headless_service, get_new_store_headless_service,
}
use elasticell_operator.Member.ServiceSync.{respecified, sync_pd_headless_service}
use elasticell_operator.Member.ServiceSync.Repeats.{pd_headless_repeats, recorded}
use elasticell_operator.Member.Update.{update_if_changed}
use elasticell_operator.Member.Update.Lost.{update_lost, rewritten}
use elasticell_operator.Tests.Data.{env, world, cluster, set_named, set_spec}

abbrev service_named : String → Service
service_named name = record {
  name = name;
  namespace = "prod";
  labels = [];
  annotations = none;
  owner_references = [];
  spec = record { service_type = ""; cluster_ip = "10.0.0.7"; ports = []; selector = [] };
}

abbrev holding : Service → World
holding s = record world { services = s ∷ [] }

abbrev peer_sent : Service
peer_sent = respecified (get_new_pd_headless_service cluster) (service_named "demo-pd-peer")

pd_headless_repeats_example :
    ((sync_pd_headless_service env (holding (service_named "demo-pd-peer"))).1.calls
      ≡ update_service peer_sent ∷ [])
    × ((sync_pd_headless_service env (holding peer_sent)).1.calls ≡ update_service peer_sent ∷ [])
unfolding service_at service_equal get_new_pd_headless_service pd_peer_member_name
pd_headless_repeats_example =
    pd_headless_repeats env (holding (service_named "demo-pd-peer")) (holding peer_sent)
      (service_named "demo-pd-peer") "service" refl refl refl refl refl

abbrev store_sent : Service
store_sent = respecified (get_new_store_headless_service cluster) (service_named "demo-store-peer")

abbrev old_pd : Service
old_pd = service_named "demo-pd"

-- The recorded text decodes to the spec that was encoded.
abbrev exact : Env
exact = record env {
  decode_service_spec = λ s. ok (respecified (get_new_pd_service cluster) old_pd).spec;
}

abbrev pd_sent : Service
pd_sent = recorded (get_new_pd_service cluster) old_pd "service"

by_ip : (a b : ServiceSpec) → a.cluster_ip ≢ b.cluster_ip → exact.eq_service_spec a b ≡ false
by_ip a b h = ground (arith, eq_iff a.cluster_ip b.cluster_ip)

given : ◌≢◌ {A = String} "10.0.0.7" ""
given = λ e. ground (arith, (eq_iff "10.0.0.7" "").1 e)

abbrev old_set : StatefulSet
old_set = set_named "demo-pd"

-- The configuration applied last cannot be read, a new one is "new", and the update is refused.
abbrev refusing : Env
refusing = record env {
  encode_set_spec = λ s. ok "new";
  decode_set_spec = λ s. elim (s == "new") [ true ↦ ok set_spec | false ↦ err not_found ];
  reply = λ calls c. some not_found;
}

-- By the next sync the pods are gone.
abbrev refused_then : World
refused_then = record world { sets = (update_if_changed refusing old_set world).1.sets; pods = [] }

update_lost_example :
    let cached = rewritten world.draft old_set "new" in
    ((update_if_changed refusing old_set world).0 ≡ err not_found)
    × (set_at refusing "prod" "demo-pd" refused_then.sets ≡ ok cached)
    × (update_if_changed refusing cached refused_then ≡ (ok tt, refused_then))
unfolding set_at stateful_set_equal
update_lost_example =
    update_lost refusing old_set world refused_then
      (("deepfabric.com/last-applied-configuration", "spec") ∷ []) "new" "pod" not_found refl refl
      refl refl refl refl (refl, refl, refl) refl refl refl
