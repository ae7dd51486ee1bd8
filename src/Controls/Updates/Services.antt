-- ===== src/Controls/Updates/Services.antt =====
-- Conflicts in the update of a service (pkg/controller/service_control.go).
use elasticell_operator.Base.{suc, String, List, [], ◌∷◌, ◌≡◌, refl, arith, true, length}
use elasticell_operator.Api.Objects.{Service}
use elasticell_operator.Api.Cluster.{CellCluster}
use elasticell_operator.Effects.{Error, nil_pointer, ok, err}
use elasticell_operator.Controls.Retry.Rules.{Runs-stuck, Runs-stuck_measure, Runs-first_failed}
use elasticell_operator.Controls.Client.{Request, update, Desk, Client, send, record_event}
use elasticell_operator.Controls.Updates.{service_attempt, update_service}
use elasticell_operator.Controls.Updates.Kept.{opened}

module _ (c : Client Service) (cluster : CellCluster) (svc : Service) where
  service_attempt_requests :
      (name : String) (d : Desk Service)
      → length (service_attempt c cluster name d).1.requests ≡ suc (length d.requests)
  unfolding service_attempt send
  service_attempt_requests name d = ground arith

  service_attempt_same :
      (e : Error)
      → ((h : List (Request Service)) → c.answer h (update svc) ≡ err e)
      → ((h : List (Request Service)) → (v : Service) × (c.get h svc.name ≡ ok v))
      → (d : Desk Service) → d.current ≡ svc
      → ((service_attempt c cluster svc.name d).0 ≡ err e)
        × ((service_attempt c cluster svc.name d).1.current ≡ svc)
  unfolding service_attempt send
  service_attempt_same e refused cached d s =
      let asked = update d.current ∷ d.requests in
      let a : c.answer d.requests (update d.current) ≡ err e = rw s (refused d.requests) in
      let g = (cached asked).1 in ground arith

  -- If the server refuses the service with a conflict as long as it is sent as it is, and the lister
  -- always has a newer one, the update of a service still sends the old one at all its four steps
  -- and fails with the conflict.
  pub update_service_stale :
      (e : Error)
      → c.retry.is_conflict e ≡ true
      → ((h : List (Request Service)) → c.answer h (update svc) ≡ err e)
      → ((h : List (Request Service)) → (v : Service) × (c.get h svc.name ≡ ok v))
      → let r = update_service c cluster svc (opened svc) in
        (r.0 ≡ err e) × (length r.1.requests ≡ 4)
  unfolding update_service record_event
  update_service_stale e conflict refused cached =
      let same = service_attempt_same e refused cached in
      let fn = service_attempt c cluster svc.name in
      let runs = c.retry.on_conflict_runs 4 fn (opened svc) (omega arith) in
      let stuck =
        Runs-stuck c.retry.is_conflict fn (λ d. d.current ≡ svc) e conflict same runs refl in
      let count =
        Runs-stuck_measure c.retry.is_conflict fn (λ d. d.current ≡ svc) e conflict same
          (λ d. length d.requests) (service_attempt_requests svc.name) runs refl in
      let p = c.retry.panic_ends in ground (arith, stuck, count)

  -- If the lister fails after a refused update of a service, the operator panics: nothing is sent
  -- again and no event is recorded.
  pub update_service_panics :
      (e x : Error)
      → c.answer [] (update svc) ≡ err e
      → c.get (update svc ∷ []) svc.name ≡ err x
      → let r = update_service c cluster svc (opened svc) in
        (r.0 ≡ err nil_pointer) × (r.1.events ≡ [])
  unfolding update_service service_attempt send
  update_service_panics e x refused missing =
      let fn = service_attempt c cluster svc.name in
      let asked = record (opened svc) { requests = update svc ∷ [] } in
      let first : fn (opened svc) ≡ (err nil_pointer, asked) = ground arith in
      let runs = c.retry.on_conflict_runs 4 fn (opened svc) (omega arith) in
      let done = Runs-first_failed c.retry.is_conflict fn first c.retry.panic_ends runs in
      ground (arith, done)
