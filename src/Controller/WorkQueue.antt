-- ===== src/Controller/WorkQueue.antt =====
-- `workqueue.RateLimitingInterface` of client-go, as the controller uses it. A key is pending while
-- it waits to be handed out, at once, after its delay, or after its worker is done with it.
use elasticell_operator.Base.{String, Bool, true, Option, some, ◌≡◌, ◌⊎◌}

pub record Queue (Q : Type 0) : Type 0 where
  pub get : Q → Option (String × Q)
  pub add : String → Q → Q
  pub add_rate_limited : String → Q → Q
  pub forget : String → Q → Q
  pub done : String → Q → Q
  pub pending : String → Q → Bool
  pub add_pending : (k : String) (q : Q) → pending k (add k q) ≡ true
  pub add_keeps : (j k : String) (q : Q) → pending j q ≡ true → pending j (add k q) ≡ true
  pub limited_pending : (k : String) (q : Q) → pending k (add_rate_limited k q) ≡ true
  pub limited_keeps :
      (j k : String) (q : Q) → pending j q ≡ true → pending j (add_rate_limited k q) ≡ true
  pub forget_keeps : (j k : String) (q : Q) → pending j q ≡ true → pending j (forget k q) ≡ true
  pub done_keeps : (j k : String) (q : Q) → pending j q ≡ true → pending j (done k q) ≡ true
  pub get_keeps :
      (j k : String) (q taken : Q)
      → get q ≡ some (k, taken)
      → pending j q ≡ true
      → (j ≡ k) ⊎ (pending j taken ≡ true)
