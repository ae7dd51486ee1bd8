-- ===== src/Tests/Clients.antt =====
-- Updates against an API server that takes only the newest version of an object.

use elasticell_operator.Base.{
  ℕ, zero, suc, ◌≤◌, String, Bool, true, false, ◌≡◌, ◌≢◌, inl, inr, refl, some, none, [], ◌∷◌,
  nat_eq, length, arith, eq_iff,
}
use elasticell_operator.Base.Lists.{All}
use elasticell_operator.Api.Objects.{Pod, Pvc, Pv, Service, StatefulSet}
use elasticell_operator.Effects.{Error, remote, not_found, Result, ok, err}
use elasticell_operator.Controls.Retry.{Runs, Retry, default_backoff}
use elasticell_operator.Controls.Retry.Rules.{attempts, attempts-Runs}
use elasticell_operator.Controls.Client.{
  create, update, delete, patch, Desk, Client, updating, event_of, update_with, attempt, send,
  record_event,
}
use elasticell_operator.Controls.Updates.{
  update_pod, update_stateful_set, update_service, set_subject,
}
use elasticell_operator.Controls.Updates.Bounds.{update_with_bounds}
use elasticell_operator.Controls.Updates.Kept.{
  Sends, SameMeta, opened, updates_keep_wanted, update_with_recovers,
}
use elasticell_operator.Controls.Updates.Services.{update_service_stale}
use elasticell_operator.Controls.Volumes.{update_meta_info, with_meta}
use elasticell_operator.Controls.Volumes.Again.{volume_meta_again}
use elasticell_operator.Tests.Data.{cluster, set_named, pod_named, pvc_named, pv_deleted}

-- The API server's code for a conflict.
abbrev pub is_conflict : Error → Bool
is_conflict (remote n) = nat_eq n 409
is_conflict e = false

abbrev pub steps : {S A : Type 0} → ℕ → (S → Result A × S) → S → Result A × S
steps zero fn s = fn s
steps (suc n) fn s = attempts is_conflict fn n s

pub steps_run :
    {S A : Type 0} (n : ℕ) (fn : S → Result A × S) (s : S)
    → 1 ≤ n
    → Runs is_conflict fn n s (steps n fn s)
steps_run zero fn s h = absurd (omega arith)
steps_run (suc n) fn s h = attempts-Runs is_conflict fn n s

abbrev pub looping : {S A : Type 0} → Retry S A
looping = record {
  is_conflict = is_conflict;
  on_conflict = steps;
  panic_ends = refl;
  on_conflict_runs = steps_run;
}

abbrev accepted : {X : Type 0} → Bool → X → Result X
accepted true x = ok x
accepted false x = err (remote 409)

-- A server that takes what `fits`, and a lister that always has the same answer.
abbrev client : {X : Type 0} → (X → Bool) → Result X → Client X
client {X} fits cached = record {
  answer = λ h q. elim q [
    | create x ↦ ok x
    | update x ↦ accepted (fits x) x
    | delete name ↦ cached
    | patch name policy ↦ cached
  ];
  deleted = λ h name. ok tt;
  get = λ h name. cached;
  is_already_exists = λ e. false;
  show = λ e. "error";
  retry = looping;
}

-- The second generation is the newest.
abbrev newest : StatefulSet
newest = record (set_named "demo-store") { generation = 2; labels = ("owner", "another") ∷ [] }

abbrev wanted : StatefulSet
wanted = set_named "demo-store"

abbrev sets : Client StatefulSet
sets = client (λ (x : StatefulSet). nat_eq x.generation 2) (ok newest)

abbrev with_spec : StatefulSet → StatefulSet
with_spec u = record u { spec = wanted.spec }

abbrev updated : Result StatefulSet × Desk StatefulSet
updated =
    update_with sets default_backoff "demo-store" with_spec (set_subject sets cluster) wanted
      (opened wanted)

update_with_bounds_example :
    (1 ≤ length updated.1.requests)
    × (length updated.1.requests ≤ 4)
    × (updated.1.events
        ≡ event_of sets.show updating (set_subject sets cluster updated.1.current) updated.0 ∷ [])
update_with_bounds_example =
    update_with_bounds sets "demo-store" with_spec 4 (set_subject sets cluster) wanted
      (opened wanted) (omega arith)

update_with_recovers_example :
    (updated.0 ≡ ok (with_spec newest))
    × (updated.1.requests ≡ update (with_spec newest) ∷ update wanted ∷ [])
update_with_recovers_example =
    update_with_recovers sets "demo-store" with_spec 2 (set_subject sets cluster) wanted newest
      (with_spec newest) (remote 409) refl refl refl refl

abbrev pod : Pod
pod = pod_named "demo-store-1" "store" "old"

-- No pod is taken.
abbrev pods : Client Pod
pods = client (λ (x : Pod). false) (ok (pod_named "demo-store-1" "pd" "new"))

updates_keep_wanted_example :
    All (Sends (SameMeta pod)) (update_pod pods cluster pod (opened pod)).1.requests
    × All
        (Sends (λ (u : StatefulSet). u.spec ≡ wanted.spec))
        (update_stateful_set sets cluster wanted (opened wanted)).1.requests
updates_keep_wanted_example = updates_keep_wanted pods sets cluster pod wanted

five_updates : length (update_pod pods cluster pod (opened pod)).1.requests ≡ 5
unfolding update_pod update_with attempt send record_event attempts
five_updates = refl

abbrev service : Service
service = record {
  name = "demo-pd";
  namespace = "prod";
  labels = [];
  annotations = none;
  owner_references = [];
  spec = record { service_type = "ClusterIP"; cluster_ip = ""; ports = []; selector = [] };
}

abbrev newer : Service
newer = record service { labels = ("version", "2") ∷ [] }

-- Only a service with labels is taken.
abbrev has_labels : Service → Bool
has_labels s = elim s.labels [ [] ↦ false | l ∷ ls ↦ true ]

abbrev services : Client Service
services = client has_labels (ok newer)

update_service_stale_example :
    ((update_service services cluster service (opened service)).0 ≡ err (remote 409))
    × (length (update_service services cluster service (opened service)).1.requests ≡ 4)
update_service_stale_example =
    update_service_stale services cluster service (remote 409) refl (λ h. refl) (λ h. (newer, refl))

abbrev no_services : Client Service
no_services = client has_labels (err not_found)

abbrev pvc : Pvc
pvc = record (pvc_named "store-demo-store-1") {
  annotations = some (("cell.deepfabric.com/pod-name", "demo-store-1") ∷ []);
}

abbrev pv : Pv
pv = record pv_deleted { claim_ref = some "store-demo-store-1" }

abbrev volumes : Client Pv
volumes = client (λ (x : Pv). true) (ok pv)

abbrev claims : String → String → Result Pvc
claims ns name = ok pvc

pod_named_in_claim : ◌≢◌ {A = String} "demo-store-1" ""
pod_named_in_claim = λ e. ground (arith, (eq_iff "demo-store-1" "").1 e)

volume_meta_again_example :
    update_meta_info volumes claims cluster (with_meta "prod" pvc pv) (opened pv)
    ≡ (ok (with_meta "prod" pvc pv), opened pv)
volume_meta_again_example =
    volume_meta_again volumes claims cluster pvc pv "store-demo-store-1" (opened pv) refl refl
      (inr refl) (inr refl) (inr refl) (inl pod_named_in_claim)
