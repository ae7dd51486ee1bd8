-- ===== src/Controls/Updates/Kept.antt =====
-- What is sent after a conflict (pkg/controller/*_control.go).
use elasticell_operator.Base.{ℕ, suc, ◌≤◌, String, List, [], ◌∷◌, ◌≡◌, refl, arith, true}
use elasticell_operator.Base.Lists.{All}
use elasticell_operator.Api.Objects.{Pod, StatefulSet}
use elasticell_operator.Api.Cluster.{CellCluster}
use elasticell_operator.Effects.{Error, Result, ok, err}
use elasticell_operator.Controls.Retry.Rules.{Runs-keeps, Runs-first_ok, Runs-first_conflict}
use elasticell_operator.Controls.Client
use elasticell_operator.Controls.Client.{
  Request, create, update, delete, patch, Event, Desk, Client, updating, event_of, send, attempt,
  after_update, record_event, update_with,
}
use elasticell_operator.Controls.Updates.{update_pod, update_stateful_set, pod_subject, set_subject}

-- A request that is an update sends an object with the property.
abbrev pub Sends : {X : Type 0} → (X → Type 0) → Request X → Type 0
Sends P (update x) = P x
Sends P (create x) = Unit
Sends P (delete name) = Unit
Sends P (patch name policy) = Unit

-- Nothing was sent yet.
abbrev pub opened : {X : Type 0} → X → Desk X
opened x = record { current = x; requests = []; events = [] }

module _ {X : Type 0} (c : Client X) (name : String) (keep : X → X) where
  -- The object is `x`, or what the lister had with what is kept of `x`.
  pub data Source (x : X) (u : X) : Type 0 where
    original : u ≡ x → Source x u
    refreshed : (h : List (Request X)) (v : X) → c.get h name ≡ ok v → u ≡ keep v → Source x u

  abbrev Kept : X → Desk X → Type 0
  Kept x d = All (Sends (Source x)) d.requests × Source x d.current

  refreshed-Kept :
      (x : X) (d : Desk X) (g : Result X)
      → c.get d.requests name ≡ g
      → Kept x d
      → Kept x (Client.refreshed c keep d g)
  refreshed-Kept x d (ok v) e k = (k.0, refreshed d.requests v e refl)
  refreshed-Kept x d (err _) e k = k

  answered-Kept :
      (x : X) (d : Desk X) (r : Result X) → Kept x d → Kept x (after_update c name keep (r, d)).1
  answered-Kept x d (ok _) k = k
  answered-Kept x d (err _) k = refreshed-Kept x d (c.get d.requests name) refl k

  attempt-Kept : (x : X) (d : Desk X) → Kept x d → Kept x (attempt c name keep d).1
  unfolding attempt send
  attempt-Kept x d k =
      let asked = record d { requests = update d.current ∷ d.requests } in
      answered-Kept x asked (c.answer d.requests (update d.current)) ((k.1, k.0), k.1)

  -- Every object that an update sends is the one given, or what the lister had after an earlier
  -- request with the wanted part of the one given.
  pub update_with-Sends :
      (steps : ℕ) (subject : X → String) (x : X)
      → 1 ≤ steps
      → All (Sends (Source x)) (update_with c steps name keep subject x (opened x)).1.requests
  unfolding update_with record_event
  update_with-Sends steps subject x h =
      let runs = c.retry.on_conflict_runs steps (attempt c name keep) (opened x) h in
      (Runs-keeps c.retry.is_conflict (attempt c name keep) (Kept x) (attempt-Kept x) runs
        (tt, original refl)).0

  pub recovers :
      (steps : ℕ) (x v u : X) (e : Error)
      → c.answer [] (update x) ≡ err e
      → c.retry.is_conflict e ≡ true
      → c.get (update x ∷ []) name ≡ ok v
      → c.answer (update x ∷ []) (update (keep v)) ≡ ok u
      → c.retry.on_conflict (suc (suc steps)) (attempt c name keep) (opened x) ≡ (
        ok u,
        record { current = keep v; requests = update (keep v) ∷ update x ∷ []; events = [] },
      )
  unfolding attempt send
  recovers steps x v u e refused conflict cached accepted =
      let asked : Desk X = record { current = keep v; requests = update x ∷ []; events = [] } in
      let first : attempt c name keep (opened x) ≡ (err e, asked) = ground arith in
      let second : attempt c name keep asked
          ≡ (ok u, record asked { requests = update (keep v) ∷ update x ∷ [] }) =
        ground arith in
      let runs =
        c.retry.on_conflict_runs (suc (suc steps)) (attempt c name keep) (opened x) (omega arith) in
      Runs-first_ok c.retry.is_conflict (attempt c name keep) second
        (Runs-first_conflict c.retry.is_conflict (attempt c name keep) first conflict runs)

  -- If the first request is a conflict, the lister then has an object, and the server accepts what
  -- the update makes of it, the update succeeds with two requests.
  pub update_with_recovers :
      (steps : ℕ) (subject : X → String) (x v u : X) (e : Error)
      → c.answer [] (update x) ≡ err e
      → c.retry.is_conflict e ≡ true
      → c.get (update x ∷ []) name ≡ ok v
      → c.answer (update x ∷ []) (update (keep v)) ≡ ok u
      → let r = update_with c (suc (suc steps)) name keep subject x (opened x) in
        (r.0 ≡ ok u) × (r.1.requests ≡ update (keep v) ∷ update x ∷ [])
  unfolding update_with record_event
  update_with_recovers steps subject x v u e refused conflict cached accepted =
      ground (arith, recovers steps x v u e refused conflict cached accepted)

Sends-All :
    {X : Type 0} (P Q : X → Type 0)
    → ((x : X) → P x → Q x)
    → (qs : List (Request X)) → All (Sends P) qs
    → All (Sends Q) qs
Sends-All P Q f [] a = tt
Sends-All P Q f (create x ∷ qs) a = (tt, Sends-All P Q f qs a.1)
Sends-All P Q f (update x ∷ qs) a = (f x a.0, Sends-All P Q f qs a.1)
Sends-All P Q f (delete n ∷ qs) a = (tt, Sends-All P Q f qs a.1)
Sends-All P Q f (patch n v ∷ qs) a = (tt, Sends-All P Q f qs a.1)

abbrev pub SameMeta : Pod → Pod → Type 0
SameMeta pod u = (u.labels ≡ pod.labels) × (u.annotations ≡ pod.annotations)

abbrev with_meta : Pod → Pod → Pod
with_meta pod u = record u { labels = pod.labels; annotations = pod.annotations }

abbrev with_spec : StatefulSet → StatefulSet → StatefulSet
with_spec set u = record u { spec = set.spec }

pod_source :
    (c : Client Pod) (pod u : Pod) → Source c pod.name (with_meta pod) pod u → SameMeta pod u
pod_source c pod u (original e) = ground arith
pod_source c pod u (refreshed h v g e) = ground arith

set_source :
    (c : Client StatefulSet) (set u : StatefulSet)
    → Source c set.name (with_spec set) set u
    → u.spec ≡ set.spec
set_source c set u (original e) = ground arith
set_source c set u (refreshed h v g e) = ground arith

-- However often they are sent, a pod is sent with the labels and annotations that were wanted, and
-- a StatefulSet with the spec that was wanted.
pub updates_keep_wanted :
    (pods : Client Pod) (sets : Client StatefulSet) (cluster : CellCluster) (pod : Pod)
    (set : StatefulSet)
    → All (Sends (SameMeta pod)) (update_pod pods cluster pod (opened pod)).1.requests
      × All
          (Sends (λ (u : StatefulSet). u.spec ≡ set.spec))
          (update_stateful_set sets cluster set (opened set)).1.requests
unfolding update_pod update_stateful_set
updates_keep_wanted pods sets cluster pod set = (
  Sends-All _ (SameMeta pod) (pod_source pods pod) _ (
      update_with-Sends pods pod.name (with_meta pod) 5 (λ _. pod_subject pods cluster pod) pod
        (omega arith)),
  Sends-All _ (λ u. u.spec ≡ set.spec) (set_source sets set) _
      (update_with-Sends sets set.name (with_spec set) 4 (set_subject sets cluster) set
        (omega arith)),
)
