-- ===== src/Controls/Client.antt =====
-- What the object controls share: the requests for one kind of object, the lister that they read
-- after a refused update, the events, and the closure that is called again after a conflict.
use Prim.Native.String.{◌++◌}
use elasticell_operator.Base.{ℕ, String, Bool, true, false, List, ◌∷◌}
use elasticell_operator.Effects.{Error, Result, ok, err}
use elasticell_operator.Controls.Retry.{Retry}

pub data Request (X : Type 0) : Type 0 where
  create : X → Request X
  update : X → Request X
  delete : String → Request X
  patch : String → String → Request X

pub record Event : Type 0 where
  pub event_type : String
  pub reason : String
  pub message : String

-- The object that the closure holds, and what was sent and recorded, newest first.
pub record Desk (X : Type 0) : Type 0 where
  pub current : X
  pub requests : List (Request X)
  pub events : List Event

-- The API server's answer after earlier requests, and the lister's cache at that moment.
pub record Client (X : Type 0) : Type 0 where
  pub answer : List (Request X) → Request X → Result X
  pub deleted : List (Request X) → String → Result (Unit {0})
  pub get : List (Request X) → String → Result X
  pub is_already_exists : Error → Bool
  pub show : Error → String
  pub retry : Retry (Desk X) X

pub data Verb : Type 0 where
  creating updating deleting patching : Verb

-- `strings.ToLower` and `strings.Title` of the four verbs.
abbrev pub lower : Verb → String
lower creating = "create"
lower updating = "update"
lower deleting = "delete"
lower patching = "patch"

abbrev pub title : Verb → String
title creating = "Create"
title updating = "Update"
title deleting = "Delete"
title patching = "Patch"

-- The event of an outcome; `subject` is the text after the verb.
abbrev pub event_of : {A : Type 0} → (Error → String) → Verb → String → Result A → Event
event_of show verb subject (ok a) = record {
  event_type = "Normal";
  reason = "Successful" ++ title verb;
  message = lower verb ++ subject ++ " successful";
}
event_of show verb subject (err e) = record {
  event_type = "Warning";
  reason = "Failed" ++ title verb;
  message = lower verb ++ subject ++ " failed error: " ++ show e;
}

abbrev pub subject : String → String → String → String
subject kind name cluster = " " ++ kind ++ " " ++ name ++ " in CellCluster " ++ cluster

module _ {X : Type 0} (c : Client X) where
  -- A request that the server answers with an object.
  unfoldable pub send : Request X → Desk X → Result X × Desk X
  send q d = (c.answer d.requests q, record d { requests = q ∷ d.requests })

  -- After a refused update the closure goes on with the lister's object and what it keeps of the
  -- old one; if the lister fails, with the old one.
  abbrev pub refreshed : (X → X) → Desk X → Result X → Desk X
  refreshed keep d (ok x) = record d { current = keep x }
  refreshed keep d (err e) = d

  abbrev pub after_update : String → (X → X) → Result X × Desk X → Result X × Desk X
  after_update name keep (ok x, d) = (ok x, d)
  after_update name keep (err e, d) = (err e, refreshed keep d (c.get d.requests name))

  -- The closure of an update.
  unfoldable pub attempt : String → (X → X) → Desk X → Result X × Desk X
  attempt name keep d = after_update name keep (send (update d.current) d)

  unfoldable pub record_event : {A : Type 0} → Verb → String → Result A × Desk X → Result A × Desk X
  record_event verb subject (r, d) =
      (r, record d { events = event_of c.show verb subject r ∷ d.events })

  -- The event of an update names the object that the closure held last.
  abbrev pub record_update : (X → String) → Result X × Desk X → Result X × Desk X
  record_update subject (r, d) = record_event updating (subject d.current) (r, d)

  -- An update of `x` with retries: `keep` puts what is wanted into a refreshed object.
  unfoldable pub update_with : ℕ → String → (X → X) → (X → String) → X → Desk X → Result X × Desk X
  update_with steps name keep subject x d =
      record_update subject
        (c.retry.on_conflict steps (attempt name keep) (record d { current = x }))

  -- Only the error of a request is looked at.
  abbrev pub outcome : {A : Type 0} → Result A × Desk X → Result (Unit {0}) × Desk X
  outcome (ok a, d) = (ok tt, d)
  outcome (err e, d) = (err e, d)

  -- A creation that finds the object there is not an event.
  abbrev pub unless_exists : String → Result (Unit {0}) × Desk X → Result (Unit {0}) × Desk X
  unless_exists subject (ok u, d) = record_event creating subject (ok u, d)
  unless_exists subject (err e, d) = elim (c.is_already_exists e) [
    | true ↦ (err e, d)
    | false ↦ record_event creating subject (err e, d)
  ]

  unfoldable pub create_with : String → X → Desk X → Result (Unit {0}) × Desk X
  create_with subject x d = unless_exists subject (outcome (send (create x) d))

  unfoldable pub delete_with : String → String → Desk X → Result (Unit {0}) × Desk X
  delete_with subject name d =
      record_event deleting subject
        (c.deleted d.requests name, record d { requests = delete name ∷ d.requests })
