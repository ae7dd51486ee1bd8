-- ===== src/Controls/Updates/Bounds.antt =====
-- How often an update is sent, and the one event that it leaves
-- (pkg/controller/*_control.go).
use elasticell_operator.Base.{ℕ, suc, ◌+◌, ◌≤◌, String, ◌∷◌, ◌≡◌, ◌∙◌, refl, arith, length}
use elasticell_operator.Controls.Retry.Rules.{Runs-keeps, Runs-measure}
use elasticell_operator.Controls.Client.{
  Desk, Client, updating, event_of, send, attempt, record_event, update_with,
}

module _ {X : Type 0} (c : Client X) (name : String) (keep : X → X) where
  pub attempt_requests :
      (d : Desk X) → length (attempt c name keep d).1.requests ≡ suc (length d.requests)
  unfolding attempt send
  attempt_requests d = ground arith

  attempt_events : (d : Desk X) → (attempt c name keep d).1.events ≡ d.events
  unfolding attempt send
  attempt_events d = ground arith

  -- An update sends its object at least once and at most as often as it has steps, and records
  -- one event, which tells its outcome and names the object that was sent last or would be next.
  pub update_with_bounds :
      (steps : ℕ) (subject : X → String) (x : X) (d : Desk X)
      → 1 ≤ steps
      → let r = update_with c steps name keep subject x d in
        (suc (length d.requests) ≤ length r.1.requests)
        × (length r.1.requests ≤ length d.requests + steps)
        × (r.1.events ≡ event_of c.show updating (subject r.1.current) r.0 ∷ d.events)
  unfolding update_with record_event
  update_with_bounds steps subject x d h =
      let start = record d { current = x } in
      let runs = c.retry.on_conflict_runs steps (attempt c name keep) start h in
      let m =
        Runs-measure c.retry.is_conflict (attempt c name keep) (λ s. length s.requests)
          attempt_requests runs in
      let e =
        Runs-keeps c.retry.is_conflict (attempt c name keep) (λ s. s.events ≡ d.events)
          (λ s p. attempt_events s ∙ p) runs refl in
      ground (arith, m, e)
