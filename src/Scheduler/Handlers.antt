-- ===== src/Scheduler/Handlers.antt =====
-- pkg/scheduler/server/mux.go: the HTTP handlers of the scheduler extender. Reading the request and
-- writing the response are go-restful's; the lock makes each filter one step.
use elasticell_operator.Base.{ℕ, String, Option, none, some, List, ◌≡◌, arith}
use elasticell_operator.Api.Objects.{Pod, Node}
use elasticell_operator.Effects.{Error, Result, ok, err, World}
use elasticell_operator.Scheduler.Filter
use elasticell_operator.Scheduler.Filter.{Predicate, priority}

-- The response: the entity, or an error with its status.
pub data Response (A : Type 0) : Type 0 where
  entity : A → Response A
  service_error : ℕ → Response A

-- errFailToRead and errFailToWrite, and the status of a failed operation.
abbrev pub bad_request : ℕ
bad_request = 400

abbrev pub internal_server_error : ℕ
internal_server_error = 500

abbrev pub write_entity : {A : Type 0} → (A → Option Error) → A → Response A
write_entity write a = elim (write a) [
  | none ↦ entity a
  | some e ↦ service_error internal_server_error
]

abbrev filtered :
    (List Node → Option Error) → Result (List Node) × World → Response (List Node) × World
filtered write (err e, w) = (service_error internal_server_error, w)
filtered write (ok nodes, w) = (write_entity write nodes, w)

unfoldable pub filter_node :
    List Predicate
    → (List Node → Option Error)
    → Result (Pod × List Node)
    → World
    → Response (List Node) × World
filter_node predicates write (err e) w = (service_error bad_request, w)
filter_node predicates write (ok (pod, nodes)) w =
    filtered write (Filter.filter predicates pod nodes w)

unfoldable pub prioritize_node :
    (List (String × ℕ) → Option Error) → Result (Pod × List Node) → Response (List (String × ℕ))
prioritize_node write (err e) = service_error bad_request
prioritize_node write (ok (pod, nodes)) = write_entity write (priority nodes)

-- A node list is answered only if it is what the filter returned and could be written.
pub filter_node-filter :
    (predicates : List Predicate) (write : List Node → Option Error) (pod : Pod)
    (nodes kept : List Node) (w w' : World)
    → filter_node predicates write (ok (pod, nodes)) w ≡ (entity kept, w')
    → (Filter.filter predicates pod nodes w ≡ (ok kept, w')) × (write kept ≡ none)
unfolding filter_node
filter_node-filter predicates write pod nodes kept w w' h = ground arith
